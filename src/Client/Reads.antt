-- ===== src/Client/Reads.antt =====
-- The read of `HashFile` (src/storage/client/storage_client.cpp) and of
-- `GrpcDataPlaneClient::PutChunk` (src/storage/client/data_plane_client.cpp), which EINTR repeats.
pub mod Laws
use distributed_cache_system.Prelude.{
  ℕ, zero, suc, ◌+◌, ◌-◌, Option, none, some, List, ◌==◌, if◌then◌else◌, length,
}
use distributed_cache_system.Prelude.Action.{Action, pure}
use distributed_cache_system.Posix.{ℤ, Opened, file, directory, Fs, Posix}

-- A bound on the calls of read that return bytes: one for each byte left.
abbrev pub rounds_left : Fs → Option Opened → ℕ
rounds_left f none = 0
rounds_left f (some directory) = 0
rounds_left f (some (file i p)) = length (f.bytes i) - p

module _ (os : Posix) where
  open os use {State, errno, eintr, read, signals}

  -- What a round of `do ... while (count < 0 && errno == EINTR)` does with read's result.
  unfoldable pub read_round :
      Action State (Option (List ℕ)) → Option (List ℕ) → Action State (Option (List ℕ))
  read_round again none t = (if errno t == eintr then again else pure none) t
  read_round again (some bytes) t = some (some bytes, t)

  -- The do loop.
  unfoldable pub read_loop : ℕ → ℤ → ℕ → Action State (Option (List ℕ))
  unfolding read_round
  read_loop zero fd count s = none
  read_loop (suc fuel) fd count s =
      let (result, t) = read fd count s in read_round (read_loop fuel fd count) result t

  -- The do loop, with a round for each signal still to come.
  unfoldable pub read_some : ℤ → ℕ → Action State (Option (List ℕ))
  unfolding read_loop
  read_some fd count s = read_loop (signals s + 1) fd count s
