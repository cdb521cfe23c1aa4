-- ===== src/Worker/Calls/Reading.antt =====
-- `PreadSome`, where pread fails only for a signal.
use distributed_cache_system.Prelude.{
  ℕ, zero, suc, ◌+◌, ◌≤◌, ◌<◌, ◌≡◌, ◌≢◌, refl, Option, none, some, List, ◌==◌, ltb, length, take,
  drop, arith,
}
use distributed_cache_system.Prelude.Action.{
  Action, Ensures, Ensures-some, Ensures-if, Ensures_mono, Ensures_returned, Ensures-of,
}
use distributed_cache_system.Status.{StatusOr, from_value}
use distributed_cache_system.Posix.{ℤ, Posix}
use distributed_cache_system.Posix.Documented.{IsDocumented, IsOpenOn}
use distributed_cache_system.Worker.Calls.{off_t_max, pread_round, pread_loop, pread_some}
use distributed_cache_system.Worker.Calls.ReadLaws.{
  Reads, read_error, read_bytes, pread_some-Ensures,
}

-- pread of an open file fails only where a signal ends it.
abbrev pub IsPreading : Posix → Type 0
IsPreading os =
    (fd : ℤ) (count offset : ℕ) (s : os.State) (i p : ℕ)
    → IsOpenOn (os.fs s) fd i p
    → (os.pread fd count offset s).0 ≡ none
    → os.errno (os.pread fd count offset s).1 ≡ os.eintr

-- Bytes of a file, from an offset before its end.
pub record ReadSome (contents : List ℕ) (count offset : ℕ) (r : StatusOr (List ℕ)) : Type 0 where
  pub n : ℕ
  pub value : r.held_value ≡ some (take n (drop offset contents))
  pub asked : n ≤ count
  pub there : n ≤ length (drop offset contents)
  pub nonzero : 0 < count → offset < length contents → 0 < n

nonzero_before : {l offset : ℕ} (n : ℕ) → (n ≡ 0 → l ≤ offset) → offset < l → 0 < n
nonzero_before zero end inside = absurd (omega (arith, end refl))
nonzero_before (suc n) end inside = omega arith

module _ (os : Posix) (laws : IsDocumented os) (preading : IsPreading os) (fd : ℤ)
    (count offset : ℕ) where
  open os use {State, fs, signals, errno, eintr, pread}

  pread_round-ok :
      (again : Action State (StatusOr (List ℕ))) (t : State) (r : Option (List ℕ))
      → (r ≡ none → errno t ≡ eintr)
      → (r ≡ none → errno t ≡ eintr → Ensures (again t) (λ x u. x.held_value ≢ none))
      → Ensures (pread_round os again r t) (λ x u. x.held_value ≢ none)
  unfolding pread_round from_value
  pread_round-ok again t none intr retry =
      Ensures-if (errno t == eintr) _ _ t (λ yes. retry refl (intr refl))
        (λ no. absurd (ground (arith, intr refl)))
  pread_round-ok again t (some bytes) intr retry = Ensures-some λ e. cc

  pread_loop-ok :
      (fuel : ℕ) (s : State) (i p : ℕ)
      → IsOpenOn (fs s) fd i p
      → signals s < fuel
      → Ensures (pread_loop os fuel fd count offset s) (λ x t. x.held_value ≢ none)
  unfolding pread_loop
  pread_loop-ok zero s i p h enough = absurd (omega arith)
  pread_loop-ok (suc fuel) s i p h enough =
      let t = (pread fd count offset s).1 in
      pread_round-ok (pread_loop os fuel fd count offset) t (pread fd count offset s).0
        (preading fd count offset s i p h)
        (λ failed intr.
          pread_loop-ok fuel t i p (rw (laws.pread_fs fd count offset s) h)
            (omega (arith, laws.pread_interrupted fd count offset s failed intr)))

  pread_some-ok :
      (s : State) (i p : ℕ)
      → IsOpenOn (fs s) fd i p
      → offset ≤ off_t_max
      → Ensures (pread_some os fd count offset s) (λ x t. x.held_value ≢ none)
  unfolding pread_some
  pread_some-ok s i p h near =
      Ensures-if (ltb off_t_max offset) _ _ s (λ far. absurd (ground arith))
        (λ _. pread_loop-ok (signals s + 1) s i p h (omega arith))

  Reads-ReadSome :
      {contents : List ℕ} {r : StatusOr (List ℕ)}
      → r.held_value ≢ none
      → Reads contents count offset r
      → ReadSome contents count offset r
  Reads-ReadSome full (read_error e bad why) = absurd (full e)
  Reads-ReadSome full (read_bytes n e le le' eof) = record {
    n = n;
    value = e;
    asked = le;
    there = le';
    nonzero = λ pos inside. nonzero_before n (λ z. eof z pos) inside;
  }

  -- PreadSome of an open file returns bytes of it, and at least one before the end of the file.
  pub pread_some-ReadSome :
      (s : State) (i p : ℕ)
      → IsOpenOn (fs s) fd i p
      → offset ≤ off_t_max
      → Ensures
          (pread_some os fd count offset s)
          (λ x t. ReadSome ((fs s).bytes i) count offset x × (fs t ≡ fs s))
  pread_some-ReadSome s i p h near =
      Ensures_mono (Ensures_returned (pread_some-ok s i p h near)) λ x t full.
        let read = Ensures-of (pread_some-Ensures os laws fd count offset s i p h) full.1 in
        (Reads-ReadSome full.0 read.0, read.1)
