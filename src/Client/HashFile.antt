-- ===== src/Client/HashFile.antt =====
-- HashFile of src/storage/client/storage_client.cpp: the size and the digest of a file.
pub mod Outcome
use distributed_cache_system.Prelude.{
  ℕ, zero, suc, ◌+◌, ◌*◌, ◌%◌, Option, none, some, List, ◌++◌, ◌==◌, if◌then◌else◌, length, text,
}
use distributed_cache_system.Prelude.Action.{Action, pure, call, gets, ◌>>=◌, ◌>>◌}
use distributed_cache_system.Status.{StatusOr, status, from_status, from_value, k_io_error}
use distributed_cache_system.Types.{u64, Checksum, k_blake3}
use distributed_cache_system.Posix.{ℤ, FilePath, read_only, Posix}
use distributed_cache_system.Blake3.{Blake3}
use distributed_cache_system.UniqueFd.{unique_fd, owns, destroy}
use distributed_cache_system.Worker.Names.{finalize_hex}
use distributed_cache_system.Client.Reads.{rounds_left, read_some}

-- kBufferSize
abbrev pub k_buffer_size : ℕ
k_buffer_size = 1024 * 1024

-- A size and a checksum: std::pair<std::uint64_t, Checksum>.
abbrev pub Hashed : Type 0
Hashed = ℕ × Checksum

module _ (os : Posix) (b : Blake3) where
  open os use {State, fs, errno, strerror}

  -- A round of the loop with what read has returned; `none` is the return on a failure.
  unfoldable pub hash_round :
      (b.Hasher → ℕ → Action State (Option (b.Hasher × ℕ)))
      → b.Hasher
      → ℕ
      → Option (List ℕ)
      → Action State (Option (b.Hasher × ℕ))
  hash_round again hasher size none = pure none
  hash_round again hasher size (some bytes) =
      if length bytes == 0
      then pure (some (hasher, size))
      else again (b.update hasher bytes) ((size + length bytes) % u64)

  -- `while (true)`
  unfoldable pub hash_loop : ℕ → ℤ → b.Hasher → ℕ → Action State (Option (b.Hasher × ℕ))
  unfolding hash_round
  hash_loop zero fd hasher size s = none
  hash_loop (suc fuel) fd hasher size s =
      (do count ← read_some os fd k_buffer_size; hash_round (hash_loop fuel fd) hasher size count) s

  -- HashFile from the failed read, or from blake3_hasher_finalize, on.
  unfoldable pub hash_result : Option (b.Hasher × ℕ) → Action State (StatusOr Hashed)
  hash_result none = do
    e ← gets errno
    pure (from_status (status k_io_error (text "read file failed: " ++ strerror e)))
  hash_result (some (hasher, size)) =
      pure (from_value (size, record { algorithm = k_blake3; value = finalize_hex b hasher }))

  -- HashFile with the descriptor that open has returned. A round but the last takes a byte at least.
  unfoldable pub hash_opened : ℤ → Action State (StatusOr Hashed)
  unfolding hash_loop hash_result
  hash_opened fd =
      if owns (unique_fd fd)
      then (do
        rounds ← gets (λ s. rounds_left (fs s) ((fs s).opened fd))
        end ← hash_loop (rounds + 1) fd b.init 0
        result ← hash_result end
        destroy os (unique_fd fd)
        pure result)
      else (do
        e ← gets errno
        pure (from_status (status k_io_error (text "open file failed: " ++ strerror e))))

  -- HashFile
  unfoldable pub hash_file : FilePath → Action State (StatusOr Hashed)
  unfolding hash_opened destroy
  hash_file path = do fd ← call (os.open_file path read_only); hash_opened fd
