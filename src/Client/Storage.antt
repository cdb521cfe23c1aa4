-- ===== src/Client/Storage.antt =====
-- StorageClient of src/storage/client/storage_client.cpp, over a DataPlaneClient. The state is that
-- of the operating system and of the network, and the counter `next_temp_id`.
pub mod Staging
pub mod Get
pub mod Put
use distributed_cache_system.Prelude.{
  ℕ, ◌+◌, ◌%◌, ◌==◌, Bool, true, false, not, ◌||◌, Option, none, some, List, ◌++◌, ◌∷◌, [],
  if◌then◌else◌, text,
}
use distributed_cache_system.Prelude.Action.{Action, pure, call, gets, ◌>>=◌, ◌>>◌, on_first}
use distributed_cache_system.Status.{
  Status, ok, status, is_ok, StatusOr, from_status, from_value, k_invalid_argument,
  k_already_exists, k_corruption, k_io_error,
}
use distributed_cache_system.Types.{
  u64, ObjectId, ChunkId, valid, ByteRange, same_checksum, PutChunkRequest, GetChunkRequest,
  HeadChunkResponse, WorkerEndpoint,
}
use distributed_cache_system.Posix.{FilePath, Posix}
use distributed_cache_system.Blake3.{Blake3}
use distributed_cache_system.Worker.FileChunkStore.Put.{path_string}
use distributed_cache_system.Client.HashFile.{Hashed, hash_file}
use distributed_cache_system.Client.DataPlane.{DataPlaneClient}

-- StorageClient::ToChunkId
unfoldable pub to_chunk_id : ObjectId → StatusOr ChunkId
unfolding status from_status from_value
to_chunk_id object_id =
    if not (valid object_id.value)
    then from_status (status k_invalid_argument (text "object_id cannot be empty"))
    else from_value (record { value = object_id.value })

module _ (os : Posix) where
  open os use {State, errno, eexist, strerror}

  -- `temp` in Get: a name beside the destination.
  unfoldable pub temp_destination : FilePath → ℕ → FilePath
  temp_destination destination id = record {
    directory = destination.directory;
    filename =
        destination.filename
        ++ ((b'.' ∷ b't' ∷ b'm' ∷ b'p' ∷ b'.' ∷ [])
            ++ (os.to_string os.getpid ++ (b'.' ∷ os.to_string id)));
  }

  -- An early return of Get after the download: `unlink`, then the status.
  unfoldable pub discard : FilePath → Status → Action State Status
  discard temp st = do call (os.unlink temp); pure st

  -- Get from link on.
  unfoldable pub link_destination : FilePath → FilePath → Action State Status
  unfolding discard
  link_destination temp destination = do
    linked ← call (os.link temp destination)
    link_error ← gets errno
    discard temp (
        if linked
        then ok
        else status (if link_error == eexist then k_already_exists else k_io_error)
            (text "commit destination failed: " ++ strerror link_error))

module _ (os : Posix) (b : Blake3) where
  open os use {State}

  -- Get with what HashFile has returned.
  unfoldable pub verify_download :
      FilePath → FilePath → HeadChunkResponse → Status → Option Hashed → Action State Status
  unfolding discard link_destination
  verify_download temp destination head failure none = discard os temp failure
  verify_download temp destination head failure (some (size, checksum)) =
      if not (size == head.size) || not (same_checksum checksum head.checksum)
      then discard os temp (status k_corruption (text "download checksum mismatch"))
      else link_destination os temp destination

  -- Get with the status of GetChunk.
  unfoldable pub after_download :
      FilePath → FilePath → HeadChunkResponse → Status → Action State Status
  unfolding discard verify_download
  after_download temp destination head st =
      if is_ok st
      then (do
        hash ← hash_file os b temp
        verify_download temp destination head hash.held_status hash.held_value)
      else discard os temp st

module _ (os : Posix) (b : Blake3) {N : Type 0} (client : DataPlaneClient os N)
    (worker : WorkerEndpoint) where
  open os use {State}

  -- Get once the temporary name is made.
  unfoldable pub download :
      ChunkId → FilePath → FilePath → HeadChunkResponse → Action (State × N) Status
  unfolding after_download
  download chunk_id temp destination head = do
    there ← on_first (call (os.exists temp))
    if there
        then pure (
            status k_already_exists
              (text "temporary destination already exists: " ++ path_string temp))
        else (do
          st ←
              client.get_chunk worker
                (record { chunk_id = chunk_id; range = record { offset = 0; size = head.size } })
                temp
          on_first (after_download os b temp destination head st))

  -- Get with the result of HeadChunk. next_temp_id.fetch_add(1) wraps.
  unfoldable pub get_headed :
      ChunkId → FilePath → Status → Option HeadChunkResponse → Action ((State × N) × ℕ) Status
  unfolding download
  get_headed chunk_id destination failure none = pure failure
  get_headed chunk_id destination failure (some head) = do
    id ← call (λ (x : (State × N) × ℕ). (x.1, (x.0, (x.1 + 1) % u64)))
    on_first (download chunk_id (temp_destination os destination id) destination head)

  -- Get with the result of ToChunkId.
  unfoldable pub get_chunk_id : FilePath → Status → Option ChunkId → Action ((State × N) × ℕ) Status
  unfolding get_headed
  get_chunk_id destination failure none = pure failure
  get_chunk_id destination failure (some chunk_id) = do
    there ← on_first (on_first (call (os.exists destination)))
    if there
        then pure (
            status k_already_exists
              (text "destination already exists: " ++ path_string destination))
        else (do
          head ← on_first (client.head_chunk worker chunk_id)
          get_headed chunk_id destination head.held_status head.held_value)

  -- StorageClient::Get
  unfoldable pub client_get : ObjectId → FilePath → Action ((State × N) × ℕ) Status
  unfolding get_chunk_id
  client_get object_id destination =
      let chunk_id = to_chunk_id object_id in
      get_chunk_id destination chunk_id.held_status chunk_id.held_value

  -- Put with what HashFile has returned.
  unfoldable pub put_hashed :
      ChunkId → FilePath → Status → Option Hashed → Action (State × N) Status
  put_hashed chunk_id source failure none = pure failure
  put_hashed chunk_id source failure (some (size, checksum)) =
      client.put_chunk worker
        (record { chunk_id = chunk_id; expected_size = size; expected_checksum = checksum }) source

  -- Put with the result of ToChunkId.
  unfoldable pub put_chunk_id : FilePath → Status → Option ChunkId → Action (State × N) Status
  unfolding put_hashed
  put_chunk_id source failure none = pure failure
  put_chunk_id source failure (some chunk_id) = do
    hash ← on_first (hash_file os b source)
    put_hashed chunk_id source hash.held_status hash.held_value

  -- StorageClient::Put
  unfoldable pub client_put : ObjectId → FilePath → Action (State × N) Status
  unfolding put_chunk_id
  client_put object_id source =
      let chunk_id = to_chunk_id object_id in
      put_chunk_id source chunk_id.held_status chunk_id.held_value

  -- The value of Head, with the result of ToChunkId.
  unfoldable pub head_chunk_id :
      Status → Option ChunkId → Action (State × N) (StatusOr HeadChunkResponse)
  head_chunk_id failure none = pure (from_status failure)
  head_chunk_id failure (some chunk_id) = client.head_chunk worker chunk_id

  -- StorageClient::Head
  unfoldable pub client_head : ObjectId → Action (State × N) (StatusOr HeadChunkResponse)
  unfolding head_chunk_id
  client_head object_id =
      let chunk_id = to_chunk_id object_id in head_chunk_id chunk_id.held_status chunk_id.held_value

  -- Delete with the result of ToChunkId.
  unfoldable pub delete_chunk_id : Status → Option ChunkId → Action (State × N) Status
  delete_chunk_id failure none = pure failure
  delete_chunk_id failure (some chunk_id) = client.delete_chunk worker chunk_id

  -- StorageClient::Delete
  unfoldable pub client_delete : ObjectId → Action (State × N) Status
  unfolding delete_chunk_id
  client_delete object_id =
      let chunk_id = to_chunk_id object_id in
      delete_chunk_id chunk_id.held_status chunk_id.held_value
