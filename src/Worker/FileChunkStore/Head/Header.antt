-- ===== src/Worker/FileChunkStore/Head/Header.antt =====
-- What ReadHeader returns, from the contents of the file that it reads.
use distributed_cache_system.Prelude.{
  ℕ, ◌+◌, ◌-◌, ◌<◌, ◌≡◌, refl, ◌∙◌, true, false, not, ◌||◌, Option, none, some, List, ltb, length,
  take, same_bytes, same_bytes→eq, same_bytes_refl, arith,
}
use distributed_cache_system.Prelude.Action.{
  Ensures, Ensures-some, Ensures-if, Ensures-bind, Ensures_mono,
}
use distributed_cache_system.Status.{
  StatusCode, k_ok, Status, status, is_ok, StatusOr, from_status, from_value, normalize_error,
  k_io_error, k_corruption,
}
use distributed_cache_system.Types.{u64, ChunkId, HeadChunkResponse, validate_checksum}
use distributed_cache_system.Posix.{ℤ, pos, negsuc, Posix}
use distributed_cache_system.Posix.Documented.{IsDocumented, IsOpenOn}
use distributed_cache_system.Worker.Header.{
  k_magic, k_header_size, header_magic, header_size, header_checksum,
}
use distributed_cache_system.Worker.FileChunkStore.Head.{
  wrong_length, check_length, check_header, checked_header, read_header,
}
use distributed_cache_system.Worker.FileChunkStore.Head.Array.{
  ArrayEnd, array_io_error, array_short, array_full, header_loop-Ensures,
}

-- The header that a file's contents begin with, as Head reports it.
abbrev pub reported : ChunkId → List ℕ → HeadChunkResponse
reported chunk_id contents = record {
  chunk_id = chunk_id;
  size = header_size (take k_header_size contents);
  checksum = header_checksum (take k_header_size contents);
}

-- The contents of a well-formed chunk file: kMagic, a checksum text, and the length that the
-- header announces, which with the header fits a uint64.
pub record IsChunkFile (contents : List ℕ) : Type 0 where
  pub magic : header_magic (take k_header_size contents) ≡ k_magic
  pub checksum : is_ok (validate_checksum (header_checksum (take k_header_size contents))) ≡ true
  pub size : length contents ≡ header_size (take k_header_size contents) + k_header_size
  pub fits : length contents < u64

-- An I/O error or a well-formed file's header; a malformed file is Corruption.
pub data HeaderEnd (chunk_id : ChunkId) (contents : List ℕ) (r : StatusOr HeadChunkResponse)
    : Type 0 where
  header_io_error :
      r.held_value ≡ none → r.held_status.code ≡ k_io_error → HeaderEnd chunk_id contents r
  header_corrupt :
      r.held_value ≡ none
      → r.held_status.code ≡ k_corruption
      → ¬ IsChunkFile contents
      → HeaderEnd chunk_id contents r
  header_read :
      r.held_value ≡ some (reported chunk_id contents)
      → IsChunkFile contents
      → HeaderEnd chunk_id contents r

not_magic : (xs : List ℕ) → not (same_bytes xs k_magic) ≡ true → xs ≡ k_magic → ⊥
not_magic xs bad e = ground (arith, same_bytes_refl k_magic)

same_pos : (m n : ℕ) → pos m ≡ pos n → m ≡ n
same_pos m n e = ground arith

-- The test of the file's length, on a file of length `l`.
lengths_agree :
    (n m l : ℕ)
    → (ltb (u64 - 1 - k_header_size) m || wrong_length (pos n) m) ≡ false
    → n ≡ l
    → (l ≡ m + k_header_size) × (l < u64)
lengths_agree n m l right exact = ground arith

mismatch :
    (n m l : ℕ)
    → (ltb (u64 - 1 - k_header_size) m || wrong_length (pos n) m) ≡ true
    → n ≡ l
    → l ≡ m + k_header_size
    → l < u64
    → ⊥
mismatch n m l wrong exact size fits = ground arith

-- An error's code survives the constructor of StatusOr.
kept_code :
    (s : Status) {c : StatusCode}
    → s.code ≡ c
    → (c ≡ k_ok → ⊥)
    → (from_status {T = HeadChunkResponse} s).held_status.code ≡ s.code
unfolding from_status normalize_error status
kept_code s e bad = ground arith

module _ (os : Posix) (laws : IsDocumented os) (fd : ℤ) where
  open os use {State, fs, fstat_size}

  module _ (contents : List ℕ) where
    check_length-Ensures :
        (chunk_id : ChunkId) (s : State) (i p : ℕ)
        → IsOpenOn (fs s) fd i p
        → (fs s).bytes i ≡ contents
        → header_magic (take k_header_size contents) ≡ k_magic
        → is_ok (validate_checksum (header_checksum (take k_header_size contents))) ≡ true
        → Ensures
            (check_length os chunk_id
              (take k_header_size contents)
              (fstat_size fd s).0
              (fstat_size fd s).1)
            (λ r t. HeaderEnd chunk_id contents r × (fs t ≡ fs s))
    unfolding check_length from_status normalize_error status from_value
    check_length-Ensures chunk_id s i p h is magic checked = go (fstat_size fd s).0 refl
      where
        header : List ℕ
        header = take k_header_size contents

        go :
            (n : Option ℤ)
            → (fstat_size fd s).0 ≡ n
            → Ensures
                (check_length os chunk_id header n (fstat_size fd s).1)
                (λ r t. HeaderEnd chunk_id contents r × (fs t ≡ fs s))
        go none e = Ensures-some (header_io_error refl refl, laws.fstat_fs fd s)
        go (some (negsuc n)) e = cc (laws.fstat_length fd s i p h e)
        go (some (pos n)) e =
            let m = header_size header in
            let exact : n ≡ length contents =
              same_pos _ _ (rw is at (laws.fstat_length fd s i p h e)) in
            Ensures-if (ltb (u64 - 1 - k_header_size) m || wrong_length (pos n) m) _ _
              (fstat_size fd s).1
              (λ wrong. Ensures-some (
                header_corrupt refl refl (λ c. mismatch n m _ wrong exact c.size c.fits),
                laws.fstat_fs fd s,
              ))
              (λ right.
                let agreed = lengths_agree n m _ right exact in
                Ensures-some (
                  header_read refl (record {
                    magic = magic;
                    checksum = checked;
                    size = agreed.0;
                    fits = agreed.1;
                  }),
                  laws.fstat_fs fd s,
                ))

    check_header-Ensures :
        (chunk_id : ChunkId) (s : State) (i p : ℕ)
        → IsOpenOn (fs s) fd i p
        → (fs s).bytes i ≡ contents
        → Ensures
            (check_header os fd chunk_id (take k_header_size contents) s)
            (λ r t. HeaderEnd chunk_id contents r × (fs t ≡ fs s))
    unfolding check_header from_status normalize_error status
    check_header-Ensures chunk_id s i p h is =
        let header = take k_header_size contents in
        Ensures-if (not (same_bytes (header_magic header) k_magic)) _ _ s
          (λ bad.
            Ensures-some
              (header_corrupt refl refl (λ c. not_magic (header_magic header) bad c.magic), refl))
          (λ good.
            Ensures-if (not (is_ok (validate_checksum (header_checksum header)))) _ _ s
              (λ bad.
                Ensures-some (header_corrupt refl refl (λ c. ground (arith, c.checksum)), refl))
              (λ valid.
                check_length-Ensures chunk_id s i p h is
                  (same_bytes→eq (header_magic header) k_magic (ground arith)) (ground arith)))

    pub read_header-Ensures :
        (chunk_id : ChunkId) (s : State) (i p : ℕ)
        → IsOpenOn (fs s) fd i p
        → (fs s).bytes i ≡ contents
        → Ensures
            (read_header os fd chunk_id s)
            (λ r t. HeaderEnd chunk_id contents r × (fs t ≡ fs s))
    unfolding read_header from_status
    read_header-Ensures chunk_id s i p h is =
        Ensures-bind _
          (header_loop-Ensures os laws fd contents (k_header_size + 1) 0 s i p h is (omega arith)
            (omega arith) (omega arith))
          λ r t ended. go r t ended.0 ended.1
      where
        go :
            (r : StatusOr (List ℕ)) (t : State)
            → ArrayEnd contents r
            → fs t ≡ fs s
            → Ensures
                (checked_header os fd chunk_id r.held_status r.held_value t)
                (λ r u. HeaderEnd chunk_id contents r × (fs u ≡ fs s))
        go r t (array_io_error e why) g =
            rw (e, checked_header)
              (Ensures-some (header_io_error refl (kept_code r.held_status why (λ e. cc) ∙ why), g))
        go r t (array_short e why short) g =
            rw (e, checked_header)
              (Ensures-some (
                header_corrupt refl (kept_code r.held_status why (λ e. cc) ∙ why)
                    (λ c. omega (arith, c.size, short)),
                g,
              ))
        go r t (array_full e) g =
            rw (e, checked_header)
              (Ensures_mono (check_header-Ensures chunk_id t i p (rw g h) (rw g is))
                λ x u done. (done.0, done.1 ∙ g))
