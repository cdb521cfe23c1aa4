-- ===== src/Worker/FileChunkStore/Put.antt =====
-- FileChunkStore::Put, stage by stage, over the operating system's state and the input stream's.
pub mod Loop
pub mod Fill
pub mod Commit
pub mod Outcome
pub mod Atomic
pub mod Checked
pub mod Progress
pub mod Filling
pub mod Working
pub mod Success
pub mod LongIds
use distributed_cache_system.Prelude.{
  ℕ, zero, suc, ◌+◌, ◌-◌, ◌*◌, String, Bool, true, false, not, ◌||◌, Option, none, some, List, [],
  ◌∷◌, ◌++◌, ◌==◌, ltb, if◌then◌else◌, length, same_bytes, text,
}
use distributed_cache_system.Prelude.Action.{Action, pure, call, gets, ◌>>=◌, ◌>>◌, on_first}
use distributed_cache_system.Status.{
  Status, ok, status, is_ok, unless_failed, k_io_error, k_corruption, k_unavailable,
  k_already_exists,
}
use distributed_cache_system.Types.{PutChunkRequest, validate_checksum}
use distributed_cache_system.Posix.{ℤ, FilePath, create_new, Posix}
use distributed_cache_system.Blake3.{Blake3}
use distributed_cache_system.UniqueFd.{UniqueFd, unique_fd, owns, destroy}
use distributed_cache_system.Worker.Streams.{InputStream}
use distributed_cache_system.Worker.Calls.{write_all}
use distributed_cache_system.Worker.Names.{finalize_hex, validate_id, path_for, temp_path}
use distributed_cache_system.Worker.Header.{make_header}

-- kBufferSize
abbrev pub k_buffer_size : ℕ
k_buffer_size = 3 * 1024 * 1024

-- What operator/ puts between a directory and a name: nothing after an empty path or a final '/'.
unfoldable pub separator : List ℕ → List ℕ
separator [] = []
separator (c ∷ []) = if c == b'/' then [] else b'/' ∷ []
separator (c ∷ d ∷ rest) = separator (d ∷ rest)

-- path.string()
unfoldable pub path_string : FilePath → List ℕ
path_string p = p.directory ++ (separator p.directory ++ p.filename)

-- What the receiving loop ends with: an early return, or the hasher and the count of bytes.
pub data Received (H : Type 0) : Type 0 where
  stopped : Status → Received H
  complete : H → ℕ → Received H

-- An early return, or a temporary file that holds the whole chunk.
pub data Filled : Type 0 where
  abandoned : Status → Filled
  filled : Filled

module _ (os : Posix) where
  open os use {State, errno, set_errno, eexist, strerror}

  -- IoError(operation, path)
  unfoldable pub io_error : String → List ℕ → ℕ → Status
  io_error operation path e =
      status k_io_error (text operation ++ (text " " ++ (path ++ (text ": " ++ strerror e))))

  -- The lambda `cleanup`.
  unfoldable pub cleanup : FilePath → Action State Bool
  cleanup temp = call (os.unlink temp)

  -- The end of Put, with the directory's descriptor as it was opened.
  unfoldable pub sync_directory : List ℕ → ℤ → Action State Status
  unfolding destroy
  sync_directory root fd =
      if owns (unique_fd fd)
      then (do
        synced ← call (os.fsync fd)
        e ← gets errno
        destroy os (unique_fd fd)
        pure (if synced then ok else io_error "fsync directory" root e))
      else (do e ← gets errno; pure (io_error "fsync directory" root e))

  -- Put after a link that succeeded.
  unfoldable pub finish_commit : List ℕ → FilePath → Action State Status
  unfolding cleanup sync_directory
  finish_commit root temp = do
    cleanup temp
    fd ← call (os.open_directory root)
    sync_directory root fd

  -- Put after a link that failed.
  unfoldable pub refuse_commit : FilePath → FilePath → List ℕ → Action State Status
  unfolding cleanup
  refuse_commit temp final id = do
    link_error ← gets errno
    cleanup temp
    if link_error == eexist
        then pure (status k_already_exists (text "chunk already exists: " ++ id))
        else (do
          call (λ s. (tt {0}, set_errno link_error s))
          e ← gets errno
          pure (io_error "commit" (path_string final) e))

  -- Put from the call of link on.
  unfoldable pub commit : List ℕ → FilePath → FilePath → List ℕ → Action State Status
  unfolding finish_commit refuse_commit
  commit root temp final id = do
    linked ← call (os.link temp final)
    if linked then finish_commit root temp else refuse_commit temp final id

  -- An early return while the temporary file is open: cleanup, then ~UniqueFd.
  unfoldable pub abandon_file : FilePath → UniqueFd → Status → Action State Status
  abandon_file temp owner st = do cleanup temp; destroy os owner; pure st

  module _ (b : Blake3) {W : Type 0} (input : InputStream W) (request : PutChunkRequest) where
    -- `count.value() > buffer.size() || received > request.expected_size || ...`
    abbrev pub exceeds : ℕ → ℕ → Bool
    exceeds received count =
        ltb k_buffer_size count
        || ltb request.expected_size received
        || ltb (request.expected_size - received) count

    -- The rest of a round that got bytes: hash, write, count.
    unfoldable pub take_bytes :
        (b.Hasher → ℕ → Action (State × W) (Received b.Hasher))
        → ℤ
        → b.Hasher
        → ℕ
        → List ℕ
        → Action (State × W) (Received b.Hasher)
    take_bytes again fd hasher received bytes = do
      st ← on_first (write_all os fd bytes)
      if is_ok st
          then again (b.update hasher bytes) (received + length bytes)
          else pure (stopped st)

    -- One round of the receiving loop, with the status and the value that Read has returned.
    unfoldable pub receive_round :
        (b.Hasher → ℕ → Action (State × W) (Received b.Hasher))
        → ℤ
        → b.Hasher
        → ℕ
        → Status
        → Option (List ℕ)
        → Action (State × W) (Received b.Hasher)
    unfolding take_bytes
    receive_round again fd hasher received failure none = pure (stopped failure)
    receive_round again fd hasher received failure (some bytes) =
        if length bytes == 0
        then pure (complete hasher received)
        else if exceeds received (length bytes)
        then pure (stopped (status k_corruption (text "received more bytes than expected")))
        else take_bytes again fd hasher received bytes

    -- `while (true)` with Read at its head. No sum here passes `expected_size`, so none wraps.
    unfoldable pub receive_loop : ℕ → ℤ → b.Hasher → ℕ → Action (State × W) (Received b.Hasher)
    unfolding receive_round
    receive_loop zero fd hasher received s = none
    receive_loop (suc fuel) fd hasher received (s, w) =
        let (count, w') = input.read k_buffer_size w in
        receive_round (receive_loop fuel fd) fd hasher received count.held_status count.held_value
          (s, w')

    -- What is checked when the stream has ended, and fdatasync.
    unfoldable pub check_received : ℤ → FilePath → Received b.Hasher → Action State Filled
    check_received fd temp (stopped st) = pure (abandoned st)
    check_received fd temp (complete hasher received) =
        if not (received == request.expected_size)
        then pure (
            abandoned
              (status k_corruption (text "received byte count does not match expected_size")))
        else if not (same_bytes (finalize_hex b hasher) request.expected_checksum.value)
        then pure (abandoned (status k_corruption (text "BLAKE3 checksum mismatch")))
        else (do
          synced ← call (os.fdatasync fd)
          e ← gets errno
          pure (if synced then filled else abandoned (io_error "fdatasync" (path_string temp) e)))

    -- Put from the loop to fdatasync. Each round but the last takes a byte at least.
    unfoldable pub receive_file : ℤ → FilePath → Action (State × W) Filled
    unfolding receive_loop check_received
    receive_file fd temp = do
      received ← receive_loop (request.expected_size + 2) fd b.init 0
      on_first (check_received fd temp received)

    -- Put from the header to fdatasync.
    unfoldable pub fill_file : ℤ → FilePath → Action (State × W) Filled
    unfolding receive_file
    fill_file fd temp = do
      st ← on_first (write_all os fd (make_header request.expected_size request.expected_checksum))
      if is_ok st then receive_file fd temp else pure (abandoned st)

    -- Put from `fd.reset()` to its end.
    unfoldable pub commit_file : List ℕ → FilePath → FilePath → UniqueFd → Action State Status
    commit_file root temp final owner = do
      emptied ← destroy os owner
      st ← commit root temp final request.chunk_id.value
      destroy os emptied
      pure st

    -- Put after fdatasync, or after the first failure before that.
    unfoldable pub after_fill :
        List ℕ → FilePath → FilePath → UniqueFd → Filled → Action (State × W) Status
    unfolding abandon_file commit_file
    after_fill root temp final owner (abandoned st) = on_first (abandon_file temp owner st)
    after_fill root temp final owner filled = on_first (commit_file root temp final owner)

    -- Put once the temporary file is open.
    unfoldable pub put_file : List ℕ → FilePath → FilePath → UniqueFd → Action (State × W) Status
    unfolding fill_file after_fill
    put_file root temp final owner = do
      outcome ← fill_file owner.fd temp
      after_fill root temp final owner outcome

    -- Put from the open of the temporary file on.
    unfoldable pub put_at : List ℕ → FilePath → FilePath → Action (State × W) Status
    unfolding put_file
    put_at root temp final = do
      fd ← on_first (call (os.open_file temp create_new))
      if owns (unique_fd fd) then put_file root temp final (unique_fd fd) else (do
        e ← on_first (gets errno)
        pure (
            if e == eexist
            then status k_unavailable (text "temporary file collision")
            else io_error "create" (path_string temp) e))

    -- Put after create_directories, with the message of its error code.
    unfoldable pub after_directories :
        List ℕ → FilePath → FilePath → Option (List ℕ) → Action (State × W) Status
    unfolding put_at
    after_directories root temp final (some message) =
        pure (status k_io_error (text "create storage root failed: " ++ message))
    after_directories root temp final none = put_at root temp final

    -- FileChunkStore::Put; `address` is that of `input`.
    unfoldable pub put : List ℕ → ℕ → Action (State × W) Status
    unfolding after_directories cleanup commit destroy
    put root address =
        let final = path_for root request.chunk_id in
        unless_failed (validate_id request.chunk_id) (
          unless_failed (validate_checksum request.expected_checksum) (do
            error ← on_first (call (os.create_directories root))
            after_directories root (temp_path os root final address) final error))
