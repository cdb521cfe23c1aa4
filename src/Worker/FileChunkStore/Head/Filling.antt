-- ===== src/Worker/FileChunkStore/Head/Filling.antt =====
-- The loop of ReadHeader, and the steps after it, where no call fails but for a signal.
use distributed_cache_system.Prelude.{
  ℕ, zero, suc, ◌+◌, ◌-◌, ◌≤◌, ◌<◌, ◌≡◌, ◌≢◌, refl, true, not, ◌||◌, Option, none, some, List, ◌==◌,
  ltb, length, length-take, take, drop, take_add, same_bytes, arith,
}
use distributed_cache_system.Prelude.Action.{
  Action, Ensures, Ensures-some, Ensures-if, Ensures-bind,
}
use distributed_cache_system.Status.{
  status, is_ok, StatusOr, from_status, from_value, normalize_error, k_io_error,
}
use distributed_cache_system.Types.{u64, ChunkId, validate_checksum}
use distributed_cache_system.Posix.{ℤ, is_nonneg, FilePath, read_no_follow, Posix, int_eq}
use distributed_cache_system.Posix.Documented.{IsDocumented, IsOpenOn}
use distributed_cache_system.Worker.Calls.Reading.{IsPreading, ReadSome, pread_some-ReadSome}
use distributed_cache_system.Worker.Header.{
  k_magic, k_header_size, header_magic, header_size, header_checksum,
}
use distributed_cache_system.Worker.FileChunkStore.Head.{
  wrong_length, header_round, header_loop, check_length, check_header,
}

-- The calls that Head and Get make on a file that is there succeed, but for a signal.
pub record IsReadable (os : Posix) : Type 0 where
  pub preading : IsPreading os
  pub opens :
      (path : FilePath) (s : os.State) (i : ℕ)
      → (os.fs s).entry path ≡ some i
      → is_nonneg (os.open_file path read_no_follow s).0 ≡ true
  pub fstats :
      (fd : ℤ) (s : os.State) (i p : ℕ) → IsOpenOn (os.fs s) fd i p → (os.fstat_size fd s).0 ≢ none

module _ (os : Posix) (laws : IsDocumented os) (readable : IsReadable os) where
  open os use {State, fs, fstat_size, open_file}

  module _ (fd : ℤ) (contents : List ℕ) where
    header_round-full :
        (again : List ℕ → Action State (StatusOr (List ℕ))) (n : ℕ) (s t : State)
        (r : StatusOr (List ℕ))
        → n < k_header_size
        → n < length contents
        → ReadSome contents (k_header_size - n) n r
        → fs t ≡ fs s
        → ((m : ℕ)
            → n < m
            → m ≤ k_header_size
            → Ensures
                (again (take m contents) t)
                (λ x u. x.held_value ≡ some (take k_header_size contents)))
        → Ensures
            (header_round os again (take n contents) r.held_status r.held_value t)
            (λ x u. x.held_value ≡ some (take k_header_size contents))
    unfolding header_round
    header_round-full again n s t r small inside read g next =
        let counted : length (take read.n (drop n contents)) ≡ read.n =
          omega (arith, length-take read.n (drop n contents), read.there) in
        let nonzero = read.nonzero (omega arith) inside in
        rw (read.value, header_round)
          (Ensures-if (length (take read.n (drop n contents)) == 0) _ _ t
            (λ empty. absurd (ground arith))
            (λ some_bytes.
              rw (take_add n read.n (n + read.n) contents refl)
                (next (n + read.n) (omega arith) (omega (arith, read.asked)))))

    pub header_loop-full :
        (fuel n : ℕ) (s : State) (i p : ℕ)
        → IsOpenOn (fs s) fd i p
        → (fs s).bytes i ≡ contents
        → n ≤ k_header_size
        → k_header_size ≤ length contents
        → k_header_size < fuel + n
        → Ensures
            (header_loop os fuel fd (take n contents) s)
            (λ x t. x.held_value ≡ some (take k_header_size contents))
    unfolding header_loop from_value
    header_loop-full zero n s i p h is small whole enough = absurd (omega arith)
    header_loop-full (suc fuel) n s i p h is small whole enough =
        let counted : length (take n contents) ≡ n = omega (arith, length-take n contents) in
        rw counted (
          Ensures-if (ltb n k_header_size) _ _ s
            (λ more.
              Ensures-bind _
                (pread_some-ReadSome os laws readable.preading fd (k_header_size - n) n s i p h
                  (omega arith))
                λ r t read.
                  header_round-full (header_loop os fuel fd) n s t r (ground arith) (ground arith)
                    (rw is at read.0) read.1
                    λ m further fits.
                      header_loop-full fuel m t i p (rw read.1 h) (rw read.1 is) fits whole
                        (omega arith))
            (λ all. let e : n ≡ k_header_size = ground arith in Ensures-some (rw e refl)))

    -- No step after the array is full reports an I/O error.
    check_length-code :
        (chunk_id : ChunkId) (header : List ℕ) (n : Option ℤ) (s : State)
        → n ≢ none
        → Ensures (check_length os chunk_id header n s) (λ r t. r.held_status.code ≢ k_io_error)
    unfolding check_length from_status normalize_error status from_value
    check_length-code chunk_id header none s there = absurd (there refl)
    check_length-code chunk_id header (some l) s there =
        Ensures-if
          (ltb (u64 - 1 - k_header_size) (header_size header)
            || wrong_length l (header_size header))
          _ _ s (λ wrong. Ensures-some (λ e. cc)) (λ right. Ensures-some (λ e. cc))

    pub check_header-code :
        (chunk_id : ChunkId) (header : List ℕ) (s : State) (i p : ℕ)
        → IsOpenOn (fs s) fd i p
        → Ensures (check_header os fd chunk_id header s) (λ r t. r.held_status.code ≢ k_io_error)
    unfolding check_header from_status normalize_error status
    check_header-code chunk_id header s i p h =
        Ensures-if (not (same_bytes (header_magic header) k_magic)) _ _ s
          (λ bad. Ensures-some (λ e. cc))
          (λ good.
            Ensures-if (not (is_ok (validate_checksum (header_checksum header)))) _ _ s
              (λ bad. Ensures-some (λ e. cc))
              (λ valid.
                check_length-code chunk_id header (fstat_size fd s).0 (fstat_size fd s).1
                  (readable.fstats fd s i p h)))
