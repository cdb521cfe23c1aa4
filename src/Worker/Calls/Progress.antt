-- ===== src/Worker/Calls/Progress.antt =====
-- `WriteAll` succeeds where the device takes what it is given.
use distributed_cache_system.Prelude.{
  ℕ, zero, suc, ◌+◌, ◌-◌, ◌<◌, ◌≡◌, refl, ap, ◌∙◌, ◌⊎◌, inl, inr, Option, true, none, some, List,
  ◌==◌, ltb, length, drop, length-drop, arith,
}
use distributed_cache_system.Prelude.Action.{
  Action, Ensures, Ensures-if, Ensures-some, Ensures_mono, Ensures_returned, Ensures-of,
}
use distributed_cache_system.Status.{Status, is_ok}
use distributed_cache_system.Posix.{ℤ, Fs, Posix, appended}
use distributed_cache_system.Posix.Documented.{
  IsDocumented, IsAppending, WriteOutcome, write_failed, wrote,
}
use distributed_cache_system.Posix.Appending.{appended-IsAppending}
use distributed_cache_system.Worker.Calls.{write_round, write_loop, write_all}
use distributed_cache_system.Worker.Calls.WriteLaws.{write_all-Ensures}

-- A write at the end of a file takes a byte at least, or a signal ends it.
abbrev pub IsTaking : Posix → Type 0
IsTaking os =
    (fd : ℤ) (buffer : List ℕ) (s : os.State) (i : ℕ)
    → IsAppending (os.fs s) fd i
    → 0 < length buffer
    → (((os.write fd buffer s).0 ≡ none) × (os.errno (os.write fd buffer s).1 ≡ os.eintr))
      ⊎ ((n : ℕ) × ((os.write fd buffer s).0 ≡ some n) × (0 < n))

module _ (os : Posix) (laws : IsDocumented os) (taking : IsTaking os) (fd : ℤ)
    (bytes : List ℕ) where
  open os use {State, fs, signals, errno, eintr, write}

  WriteOutcome-IsAppending :
      {f g : Fs} {i : ℕ} {buffer : List ℕ} {n : Option ℕ}
      → IsAppending f fd i
      → WriteOutcome f fd i buffer n g
      → IsAppending g fd i
  WriteOutcome-IsAppending h (write_failed e g) = rw g h
  WriteOutcome-IsAppending {f} {i} h (wrote k e le g) = rw g (appended-IsAppending f fd i _)

  write_round-ok :
      (again : ℕ → Action State Status) (written : ℕ) (t : State) (r : Option ℕ)
      → ((r ≡ none) × (errno t ≡ eintr)) ⊎ ((n : ℕ) × (r ≡ some n) × (0 < n))
      → (r ≡ none → errno t ≡ eintr → Ensures (again written t) (λ st u. is_ok st ≡ true))
      → ((n : ℕ) → r ≡ some n → 0 < n → Ensures (again (written + n) t) (λ st u. is_ok st ≡ true))
      → Ensures (write_round os again written r t) (λ st u. is_ok st ≡ true)
  unfolding write_round
  write_round-ok again written t r (inl (e, intr)) retry more =
      rw (e, write_round)
        (Ensures-if (errno t == eintr) _ _ t (λ yes. retry e intr) (λ no. absurd (ground arith)))
  write_round-ok again written t r (inr (n, e, some_bytes)) retry more =
      rw (e, write_round)
        (Ensures-if (n == 0) _ _ t (λ empty. absurd (ground arith)) (λ full. more n e some_bytes))

  write_loop-ok :
      (fuel written : ℕ) (s : State) (i : ℕ)
      → IsAppending (fs s) fd i
      → length bytes - written + signals s < fuel
      → Ensures (write_loop os fuel fd bytes written s) (λ st t. is_ok st ≡ true)
  unfolding write_loop
  write_loop-ok zero written s i h enough = absurd (omega arith)
  write_loop-ok (suc fuel) written s i h enough =
      Ensures-if (ltb written (length bytes)) _ _ s
        (λ unfinished.
          let buffer = drop written bytes in
          let t = (write fd buffer s).1 in
          let h' : IsAppending (fs t) fd i =
            WriteOutcome-IsAppending h (laws.write_appends fd buffer s i h) in
          write_round-ok (write_loop os fuel fd bytes) written t (write fd buffer s).0
            (taking fd buffer s i h (ground (arith, length-drop written bytes)))
            (λ failed intr.
              write_loop-ok fuel written t i h'
                (omega (arith, laws.write_interrupted fd buffer s failed intr)))
            (λ n e some_bytes.
              write_loop-ok fuel (written + n) t i h'
                (ground (arith, laws.write_signals fd buffer s))))
        (λ all. Ensures-some refl)

  write_all_succeeds :
      (s : State) (i : ℕ)
      → IsAppending (fs s) fd i
      → Ensures (write_all os fd bytes s) (λ st t. is_ok st ≡ true)
  unfolding write_all
  write_all_succeeds s i h = write_loop-ok (length bytes + signals s + 1) 0 s i h (omega arith)

  -- With an operating system that behaves as documented, where a write at the end of a file takes a
  -- byte at least unless a signal ends it, WriteAll returns OK and has appended exactly the data,
  -- however short the writes are.
  pub write_all-ok :
      (s : State) (i : ℕ)
      → IsAppending (fs s) fd i
      → Ensures
          (write_all os fd bytes s)
          (λ st t. (is_ok st ≡ true) × (fs t ≡ appended (fs s) fd i bytes))
  write_all-ok s i h = Ensures_mono (Ensures_returned (write_all_succeeds s i h)) λ st t done.
      let a = Ensures-of (write_all-Ensures os laws fd bytes s h) done.1 in
      (done.0, a.result ∙ ap (λ d. appended (fs s) fd i d) (a.whole done.0))
