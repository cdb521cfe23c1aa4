-- ===== src/Worker/Calls/ReadLaws.antt =====
-- `PreadSome` ends, changes no file, and returns bytes that stand in the file at the offset.
use distributed_cache_system.Prelude.{
  ℕ, zero, suc, ◌+◌, ◌≤◌, ◌<◌, ◌≡◌, refl, ◌∙◌, ◌⊎◌, inl, inr, false, Option, none, some, List, ◌==◌,
  ltb, length, take, drop, arith,
}
use distributed_cache_system.Prelude.Action.{
  Action, Ensures, Ensures-some, Ensures-if, Ensures_mono,
}
use distributed_cache_system.Status.{
  is_ok, status, StatusOr, from_status, from_value, normalize_error, k_io_error,
}
use distributed_cache_system.Posix.{ℤ, Posix}
use distributed_cache_system.Posix.Documented.{
  IsDocumented, IsOpenOn, ReadOutcome, read_failed, got,
}
use distributed_cache_system.Worker.Calls.{off_t_max, pread_round, pread_loop, pread_some}

-- An I/O error, an offset out of range, or at most `count` bytes of the contents from the offset on, none only at the end.
pub data Reads (contents : List ℕ) (count offset : ℕ) (r : StatusOr (List ℕ)) : Type 0 where
  read_error :
      r.held_value ≡ none
      → is_ok r.held_status ≡ false
      → (r.held_status.code ≡ k_io_error) ⊎ (off_t_max < offset)
      → Reads contents count offset r
  read_bytes :
      (n : ℕ)
      → r.held_value ≡ some (take n (drop offset contents))
      → n ≤ count
      → n ≤ length (drop offset contents)
      → (n ≡ 0 → 0 < count → length contents ≤ offset)
      → Reads contents count offset r

module _ (os : Posix) (laws : IsDocumented os) (fd : ℤ) (count offset : ℕ) where
  open os use {State, fs, signals, errno, eintr, pread}

  pread_round-Ensures :
      (again : Action State (StatusOr (List ℕ))) (s t : State) {contents : List ℕ}
      (r : Option (List ℕ))
      → ReadOutcome contents count offset r
      → fs t ≡ fs s
      → (r ≡ none
          → errno t ≡ eintr
          → Ensures (again t) (λ st u. Reads contents count offset st × (fs u ≡ fs t)))
      → Ensures (pread_round os again r t) (λ st u. Reads contents count offset st × (fs u ≡ fs s))
  unfolding pread_round status from_status from_value normalize_error
  pread_round-Ensures again s t none (got n e le le' eof) g retry = cc
  pread_round-Ensures again s t none (read_failed e) g retry =
      Ensures-if (errno t == eintr) _ _ t
        (λ intr. Ensures_mono (retry refl (ground arith)) λ st u a. (a.0, a.1 ∙ g))
        (λ no_intr. Ensures-some (read_error refl refl (inl refl), g))
  pread_round-Ensures again s t (some bytes) (read_failed e) g retry = cc
  pread_round-Ensures again s t (some bytes) (got n e le le' eof) g retry =
      Ensures-some (read_bytes n e le le' eof, g)

  pread_loop-Ensures :
      (fuel : ℕ) (s : State) (i p : ℕ)
      → IsOpenOn (fs s) fd i p
      → signals s < fuel
      → Ensures
          (pread_loop os fuel fd count offset s)
          (λ st t. Reads ((fs s).bytes i) count offset st × (fs t ≡ fs s))
  unfolding pread_loop
  pread_loop-Ensures zero s i p h enough = absurd (omega arith)
  pread_loop-Ensures (suc fuel) s i p h enough =
      let t = (pread fd count offset s).1 in
      let same : fs t ≡ fs s = laws.pread_fs fd count offset s in
      pread_round-Ensures (pread_loop os fuel fd count offset) s t (pread fd count offset s).0
        (laws.pread_reads fd count offset s i p h) same
        (λ failed intr. rw (← same) (
          pread_loop-Ensures fuel t i p (rw same h)
            (omega (arith, laws.pread_interrupted fd count offset s failed intr))))

  -- With an operating system that behaves as documented and a descriptor of an open file,
  -- PreadSome ends, whatever calls are interrupted, and changes no file. It returns an error, or
  -- the file's bytes from the offset on: at most as many as were asked for, and none only at the
  -- end of the file.
  pub pread_some-Ensures :
      (s : State) (i p : ℕ)
      → IsOpenOn (fs s) fd i p
      → Ensures
          (pread_some os fd count offset s)
          (λ st t. Reads ((fs s).bytes i) count offset st × (fs t ≡ fs s))
  unfolding pread_some status from_status normalize_error
  pread_some-Ensures s i p h =
      Ensures-if (ltb off_t_max offset) _ _ s
        (λ far. Ensures-some (read_error refl refl (inr (ground arith)), refl))
        (λ near. pread_loop-Ensures (signals s + 1) s i p h (omega arith))
