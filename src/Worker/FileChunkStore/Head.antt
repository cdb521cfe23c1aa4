-- ===== src/Worker/FileChunkStore/Head.antt =====
-- ReadHeader, FileChunkStore::Head, Size and Exists.
pub mod Array
pub mod Header
pub mod Outcome
pub mod Filling
pub mod Success
use distributed_cache_system.Prelude.{
  ℕ, zero, suc, ◌+◌, ◌-◌, Bool, true, false, not, ◌||◌, Option, none, some, List, [], ◌++◌, ◌==◌,
  ltb, if◌then◌else◌, length, same_bytes, text,
}
use distributed_cache_system.Prelude.Action.{Action, pure, call, gets, ◌>>=◌, ◌>>◌}
use distributed_cache_system.Status.{
  Status, status, is_ok, StatusOr, from_status, from_value, has_value, k_io_error, k_corruption,
  k_not_found,
}
use distributed_cache_system.Types.{u64, ChunkId, HeadChunkResponse, validate_checksum}
use distributed_cache_system.Posix.{ℤ, pos, negsuc, is_nonneg, FilePath, read_no_follow, Posix}
use distributed_cache_system.UniqueFd.{unique_fd, owns, destroy}
use distributed_cache_system.Worker.Calls.{io_failure, pread_some}
use distributed_cache_system.Worker.Names.{validate_id, path_for}
use distributed_cache_system.Worker.Header.{
  k_magic, k_header_size, header_magic, header_size, header_checksum,
}
use distributed_cache_system.Worker.FileChunkStore.Put.{io_error, path_string}

-- `static_cast<std::uint64_t>(file_stat.st_size) != size + kHeaderSize`, with the test of the sign.
abbrev pub wrong_length : ℤ → ℕ → Bool
wrong_length (pos n) size = not (n == size + k_header_size)
wrong_length (negsuc n) size = true

module _ (os : Posix) where
  open os use {State, errno, enoent}

  -- What a round of ReadHeader's loop does with PreadSome's result.
  unfoldable pub header_round :
      (List ℕ → Action State (StatusOr (List ℕ)))
      → List ℕ
      → Status
      → Option (List ℕ)
      → Action State (StatusOr (List ℕ))
  header_round again header failure none = pure (from_status failure)
  header_round again header failure (some bytes) =
      if length bytes == 0
      then pure (from_status (status k_corruption (text "truncated chunk header")))
      else again (header ++ bytes)

  -- The loop of ReadHeader; `header` is the part of the array that has been read.
  unfoldable pub header_loop : ℕ → ℤ → List ℕ → Action State (StatusOr (List ℕ))
  unfolding header_round
  header_loop zero fd header s = none
  header_loop (suc fuel) fd header s =
      (if ltb (length header) k_header_size
          then (do
            r ← pread_some os fd (k_header_size - length header) (length header)
            header_round (header_loop fuel fd) header r.held_status r.held_value)
          else pure (from_value header))
        s

  -- ReadHeader from fstat on, with its result.
  unfoldable pub check_length :
      ChunkId → List ℕ → Option ℤ → Action State (StatusOr HeadChunkResponse)
  check_length chunk_id header none = do
    e ← gets errno
    pure (from_status (io_failure os "fstat failed: " e))
  check_length chunk_id header (some file_length) =
      if ltb (u64 - 1 - k_header_size) (header_size header)
        || wrong_length file_length (header_size header)
      then pure (from_status (status k_corruption (text "chunk file size does not match header")))
      else pure (
          from_value (record {
            chunk_id = chunk_id;
            size = header_size header;
            checksum = header_checksum header;
          }))

  -- ReadHeader once the array is full.
  unfoldable pub check_header : ℤ → ChunkId → List ℕ → Action State (StatusOr HeadChunkResponse)
  unfolding check_length
  check_header fd chunk_id header =
      if not (same_bytes (header_magic header) k_magic)
      then pure (from_status (status k_corruption (text "invalid chunk file magic")))
      else if not (is_ok (validate_checksum (header_checksum header)))
      then pure (from_status (status k_corruption (text "invalid persisted checksum")))
      else (do file_length ← call (os.fstat_size fd); check_length chunk_id header file_length)

  unfoldable pub checked_header :
      ℤ → ChunkId → Status → Option (List ℕ) → Action State (StatusOr HeadChunkResponse)
  unfolding check_header
  checked_header fd chunk_id failure none = pure (from_status failure)
  checked_header fd chunk_id failure (some header) = check_header fd chunk_id header

  -- ReadHeader. A round of the loop reads a byte at least, or ends it.
  unfoldable pub read_header : ℤ → ChunkId → Action State (StatusOr HeadChunkResponse)
  unfolding header_loop checked_header
  read_header fd chunk_id = do
    r ← header_loop (k_header_size + 1) fd []
    checked_header fd chunk_id r.held_status r.held_value

  -- What Head and Get answer where the chunk's file could not be opened.
  unfoldable pub open_failure : ChunkId → FilePath → ℕ → Status
  unfolding io_error
  open_failure chunk_id path e =
      if e == enoent
      then status k_not_found (text "chunk not found: " ++ chunk_id.value)
      else io_error os "open" (path_string path) e

  -- Head with the descriptor that open has returned; ~UniqueFd runs on the way out.
  unfoldable pub head_opened : ℤ → ChunkId → FilePath → Action State (StatusOr HeadChunkResponse)
  unfolding read_header open_failure
  head_opened fd chunk_id path =
      if owns (unique_fd fd)
      then (do r ← read_header fd chunk_id; destroy os (unique_fd fd); pure r)
      else (do e ← gets errno; pure (from_status (open_failure chunk_id path e)))

  -- FileChunkStore::Head
  unfoldable pub head : List ℕ → ChunkId → Action State (StatusOr HeadChunkResponse)
  unfolding head_opened destroy
  head root chunk_id =
      if is_ok (validate_id chunk_id)
      then (do
        fd ← call (os.open_file (path_for root chunk_id) read_no_follow)
        head_opened fd chunk_id (path_for root chunk_id))
      else pure (from_status (validate_id chunk_id))

  -- The value of Size, from what Head has returned.
  unfoldable pub size_of : Status → Option HeadChunkResponse → StatusOr ℕ
  size_of failure none = from_status failure
  size_of failure (some response) = from_value response.size

  -- FileChunkStore::Size
  unfoldable pub size : List ℕ → ChunkId → Action State (StatusOr ℕ)
  unfolding head size_of
  size root chunk_id = do r ← head root chunk_id; pure (size_of r.held_status r.held_value)

  -- FileChunkStore::Exists
  unfoldable pub exists : List ℕ → ChunkId → Action State Bool
  unfolding head
  exists root chunk_id = do r ← head root chunk_id; pure (has_value r)
