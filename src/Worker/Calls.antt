-- ===== src/Worker/Calls.antt =====
-- `WriteAll` and `PreadSome` of src/storage/worker/file_chunk_store.cpp: the loops around write
-- and pread that try again after EINTR.
pub mod WriteLaws
pub mod ReadLaws
pub mod Progress
pub mod Reading
use distributed_cache_system.Prelude.{
  ℕ, zero, suc, ◌+◌, ◌-◌, ◌^◌, String, Option, true, false, none, some, List, [], ◌++◌, ◌==◌, ltb,
  if◌then◌else◌, length, drop, text,
}
use distributed_cache_system.Prelude.Action.{Action, pure, call, gets, ◌>>=◌}
use distributed_cache_system.Status.{
  Status, ok, status, StatusOr, from_status, from_value, k_io_error, k_invalid_argument,
}
use distributed_cache_system.Posix.{ℤ, Posix}

-- std::numeric_limits<off_t>::max()
abbrev pub off_t_max : ℕ
off_t_max = 2 ^ 63 - 1

module _ (os : Posix) where
  open os use {State, errno, eintr, strerror, write, pread, signals}

  -- The message of a failed call.
  abbrev pub io_failure : String → ℕ → Status
  io_failure what e = status k_io_error (text what ++ strerror e)

  -- What a round of WriteAll does with write's result; `again` goes on from a count written.
  unfoldable pub write_round : (ℕ → Action State Status) → ℕ → Option ℕ → Action State Status
  write_round again written none t =
      (if errno t == eintr then again written else pure (io_failure "write failed: " (errno t))) t
  write_round again written (some n) t =
      (if n == 0 then pure (io_failure "write failed: " (errno t)) else again (written + n)) t

  -- The loop of WriteAll. `write` has the rest of the data from `written` on.
  unfoldable pub write_loop : ℕ → ℤ → List ℕ → ℕ → Action State Status
  unfolding write_round
  write_loop zero fd bytes written s = none
  write_loop (suc fuel) fd bytes written s =
      (if ltb written (length bytes)
          then (λ s.
              let (result, t) = write fd (drop written bytes) s in
              write_round (write_loop fuel fd bytes) written result t)
          else pure ok)
        s

  -- WriteAll: a round writes a byte at least, or uses up a signal.
  unfoldable pub write_all : ℤ → List ℕ → Action State Status
  unfolding write_loop
  write_all fd bytes s = write_loop (length bytes + signals s + 1) fd bytes 0 s

  -- What a round of PreadSome does with pread's result.
  unfoldable pub pread_round :
      Action State (StatusOr (List ℕ)) → Option (List ℕ) → Action State (StatusOr (List ℕ))
  pread_round again none t =
      (if errno t == eintr
          then again
          else pure (from_status (io_failure "pread failed: " (errno t))))
        t
  pread_round again (some bytes) t = some (from_value bytes, t)

  -- The loop of PreadSome.
  unfoldable pub pread_loop : ℕ → ℤ → ℕ → ℕ → Action State (StatusOr (List ℕ))
  unfolding pread_round
  pread_loop zero fd count offset s = none
  pread_loop (suc fuel) fd count offset s =
      let (result, t) = pread fd count offset s in
      pread_round (pread_loop fuel fd count offset) result t

  -- PreadSome: each round but the last uses up a signal.
  unfoldable pub pread_some : ℤ → ℕ → ℕ → Action State (StatusOr (List ℕ))
  unfolding pread_loop
  pread_some fd count offset s =
      (if ltb off_t_max offset
          then pure
              (from_status (status k_invalid_argument (text "file offset exceeds platform limit")))
          else pread_loop (signals s + 1) fd count offset)
        s
