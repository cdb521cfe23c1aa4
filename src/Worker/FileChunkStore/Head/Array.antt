-- ===== src/Worker/FileChunkStore/Head/Array.antt =====
-- The loop of ReadHeader: it fills its array from the start of the file, or gives up.
use distributed_cache_system.Prelude.{
  ℕ, zero, suc, ◌+◌, ◌-◌, ◌≤◌, ◌<◌, ◌≡◌, refl, ap, ◌∙◌, inl, inr, true, false, none, some, List,
  ◌==◌, ltb, length, length-take, length-drop, take, drop, take_add, arith,
}
use distributed_cache_system.Prelude.Action.{
  Action, Ensures, Ensures-some, Ensures-if, Ensures-bind, Ensures_mono,
}
use distributed_cache_system.Status.{
  Status, status, StatusOr, from_status, from_value, normalize_error, k_io_error, k_corruption,
}
use distributed_cache_system.Status.Laws.{normalize_error_kept}
use distributed_cache_system.Posix.{ℤ, Posix}
use distributed_cache_system.Posix.Documented.{IsDocumented, IsOpenOn}
use distributed_cache_system.Worker.Calls.ReadLaws.{
  Reads, read_error, read_bytes, pread_some-Ensures,
}
use distributed_cache_system.Worker.Header.{k_header_size}
use distributed_cache_system.Worker.FileChunkStore.Head.{header_round, header_loop}

-- What the loop leaves.
pub data ArrayEnd (contents : List ℕ) (r : StatusOr (List ℕ)) : Type 0 where
  array_io_error : r.held_value ≡ none → r.held_status.code ≡ k_io_error → ArrayEnd contents r
  array_short :
      r.held_value ≡ none
      → r.held_status.code ≡ k_corruption
      → length contents < k_header_size
      → ArrayEnd contents r
  array_full : r.held_value ≡ some (take k_header_size contents) → ArrayEnd contents r

module _ (os : Posix) (laws : IsDocumented os) (fd : ℤ) where
  open os use {State, fs, fstat_size}

  module _ (contents : List ℕ) where
    header_round-Ensures :
        (again : List ℕ → Action State (StatusOr (List ℕ))) (n : ℕ) (s t : State)
        (r : StatusOr (List ℕ))
        → n < k_header_size
        → Reads contents (k_header_size - n) n r
        → fs t ≡ fs s
        → ((m : ℕ)
            → n < m
            → m ≤ k_header_size
            → m ≤ length contents
            → Ensures (again (take m contents) t) (λ x u. ArrayEnd contents x × (fs u ≡ fs t)))
        → Ensures
            (header_round os again (take n contents) r.held_status r.held_value t)
            (λ x u. ArrayEnd contents x × (fs u ≡ fs s))
    unfolding header_round status from_status normalize_error
    header_round-Ensures again n s t r small (read_error e bad (inl why)) g next =
        rw (e, header_round)
          (Ensures-some (
            array_io_error refl
                (ap (λ (x : Status). x.code) (normalize_error_kept r.held_status bad) ∙ why),
            g,
          ))
    header_round-Ensures again n s t r small (read_error e bad (inr why)) g next =
        absurd (omega arith)
    header_round-Ensures again n s t r small (read_bytes k e le le' eof) g next =
        let counted : length (take k (drop n contents)) ≡ k =
          omega (arith, length-take k (drop n contents)) in
        rw (e, header_round)
          (Ensures-if (length (take k (drop n contents)) == 0) _ _ t
            (λ empty. Ensures-some (array_short refl refl (shorter empty counted), g))
            (λ some_bytes. rw (take_add n k (n + k) contents refl) (
              Ensures_mono (next (n + k) (ground arith) (omega arith) (reached some_bytes counted))
                λ x u h. (h.0, h.1 ∙ g))))
      where
        shorter :
            (length (take k (drop n contents)) == 0) ≡ true
            → length (take k (drop n contents)) ≡ k
            → length contents < k_header_size
        shorter empty counted = let z : k ≡ 0 = ground arith in omega (arith, eof z (omega arith))

        reached :
            (length (take k (drop n contents)) == 0) ≡ false
            → length (take k (drop n contents)) ≡ k
            → n + k ≤ length contents
        reached some_bytes counted =
            let z : 0 < k = ground arith in omega (arith, length-drop n contents)

    pub header_loop-Ensures :
        (fuel n : ℕ) (s : State) (i p : ℕ)
        → IsOpenOn (fs s) fd i p
        → (fs s).bytes i ≡ contents
        → n ≤ k_header_size
        → n ≤ length contents
        → k_header_size < fuel + n
        → Ensures
            (header_loop os fuel fd (take n contents) s)
            (λ x t. ArrayEnd contents x × (fs t ≡ fs s))
    unfolding header_loop from_value
    header_loop-Ensures zero n s i p h is small counted enough = absurd (omega arith)
    header_loop-Ensures (suc fuel) n s i p h is small there enough =
        let counted : length (take n contents) ≡ n = omega (arith, length-take n contents) in
        rw counted (
          Ensures-if (ltb n k_header_size) _ _ s
            (λ more.
              Ensures-bind _ (pread_some-Ensures os laws fd (k_header_size - n) n s i p h)
                λ r t read.
                  header_round-Ensures (header_loop os fuel fd) n s t r (ground arith)
                    (rw is at read.0) read.1
                    λ m further fits there'.
                      header_loop-Ensures fuel m t i p (rw read.1 h) (rw read.1 is) fits there'
                        (omega arith))
            (λ all.
              let e : n ≡ k_header_size = ground arith in
              Ensures-some (array_full (rw e refl), refl)))
