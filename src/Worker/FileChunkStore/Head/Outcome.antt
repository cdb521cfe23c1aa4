-- ===== src/Worker/FileChunkStore/Head/Outcome.antt =====
-- What Head returns, from the file that the chunk's path names.
use distributed_cache_system.Prelude.{
  ℕ, ◌≡◌, refl, ◌∙◌, inl, inr, Bool-cases, false, none, some, List, ◌==◌, arith,
}
use distributed_cache_system.Prelude.Action.{Ensures, Ensures-some, Ensures-if, Ensures-bind}
use distributed_cache_system.Prelude.Maps.{update_self, update-update, update_same}
use distributed_cache_system.Status.{
  status, is_ok, StatusOr, from_status, normalize_error, k_invalid_argument, k_io_error,
  k_corruption, k_not_found,
}
use distributed_cache_system.Types.{ChunkId, HeadChunkResponse}
use distributed_cache_system.Posix.{
  ℤ, is_nonneg, Fs, file, read_no_follow, Posix, with_opened, int_eq,
}
use distributed_cache_system.Posix.Documented.{IsDocumented, OpenOutcome, not_opened, opened_file}
use distributed_cache_system.UniqueFd.Ownership.{destroy-Ensures}
use distributed_cache_system.Worker.Names.{validate_id, path_for}
use distributed_cache_system.Worker.FileChunkStore.Put.{io_error}
use distributed_cache_system.Worker.FileChunkStore.Head.{open_failure, head_opened, head}
use distributed_cache_system.Worker.FileChunkStore.Head.Header.{
  reported, IsChunkFile, HeaderEnd, header_io_error, header_corrupt, header_read,
  read_header-Ensures,
}

pub data HeadOutcome (root : List ℕ) (chunk_id : ChunkId) (f : Fs) (r : StatusOr HeadChunkResponse)
    : Type 0 where
  bad_id :
      r.held_value ≡ none
      → r.held_status.code ≡ k_invalid_argument
      → is_ok (validate_id chunk_id) ≡ false
      → HeadOutcome root chunk_id f r
  io_failed : r.held_value ≡ none → r.held_status.code ≡ k_io_error → HeadOutcome root chunk_id f r
  not_found :
      r.held_value ≡ none
      → r.held_status.code ≡ k_not_found
      → f.entry (path_for root chunk_id) ≡ none
      → HeadOutcome root chunk_id f r
  corrupt :
      (i : ℕ)
      → r.held_value ≡ none
      → r.held_status.code ≡ k_corruption
      → f.entry (path_for root chunk_id) ≡ some i
      → ¬ IsChunkFile (f.bytes i)
      → HeadOutcome root chunk_id f r
  found :
      (i : ℕ)
      → r.held_value ≡ some (reported chunk_id (f.bytes i))
      → f.entry (path_for root chunk_id) ≡ some i
      → IsChunkFile (f.bytes i)
      → HeadOutcome root chunk_id f r

-- Opening a descriptor and closing it leaves the table as it was.
pub opened_closed :
    (f g h : Fs) (fd : ℤ) (i : ℕ)
    → f.opened fd ≡ none
    → g ≡ with_opened f fd (some (file i 0))
    → h ≡ with_opened g fd none
    → h ≡ f
opened_closed f g h fd i free e p =
    p
    ∙ rw (e, update-update f.opened fd (some (file i 0)) none, update_same f.opened fd none free)
        refl

validate_id-code :
    (chunk_id : ChunkId)
    → is_ok (validate_id chunk_id) ≡ false
    → (normalize_error (validate_id chunk_id)).code ≡ k_invalid_argument
unfolding validate_id normalize_error
validate_id-code chunk_id bad = ground arith

module _ (os : Posix) (laws : IsDocumented os) (root : List ℕ) (chunk_id : ChunkId) where
  open os use {State, fs, errno, enoent, open_file}

  header_outcome :
      {f : Fs} {i : ℕ} (r : StatusOr HeadChunkResponse)
      → f.entry (path_for root chunk_id) ≡ some i
      → HeaderEnd chunk_id (f.bytes i) r
      → HeadOutcome root chunk_id f r
  header_outcome r e (header_io_error nothing why) = io_failed nothing why
  header_outcome {i} r e (header_corrupt nothing why bad) = corrupt i nothing why e bad
  header_outcome {i} r e (header_read value is) = found i value e is

  head_opened-Ensures :
      (s t : State) (fd : ℤ)
      → OpenOutcome (fs s) (path_for root chunk_id) fd (fs t)
      → (is_nonneg fd ≡ false → errno t ≡ enoent → (fs s).entry (path_for root chunk_id) ≡ none)
      → Ensures
          (head_opened os fd chunk_id (path_for root chunk_id) t)
          (λ r u. HeadOutcome root chunk_id (fs s) r × (fs u ≡ fs s))
  unfolding head_opened open_failure io_error status from_status normalize_error
  head_opened-Ensures s t fd (not_opened bad g) enoent_law =
      Ensures-if (is_nonneg fd) _ _ t (λ good. cc)
        (λ _. elim (Bool-cases (errno t == enoent)) [
          | inl absent ↦
              rw absent (Ensures-some (not_found refl refl (enoent_law bad (ground arith)), g))
          | inr other ↦ rw other (Ensures-some (io_failed refl refl, g))
        ])
  head_opened-Ensures s t fd (opened_file i good e free g) enoent_law =
      Ensures-if (is_nonneg fd) _ _ t
        (λ _.
          Ensures-bind _
            (read_header-Ensures os laws fd ((fs t).bytes i) chunk_id t i 0
              (rw g (update_self (fs s).opened fd _)) refl)
            λ r u read. Ensures-bind _ (destroy-Ensures os laws fd u good) λ x v closed.
              Ensures-some (
                header_outcome r e (rw g at read.0),
                opened_closed (fs s) (fs t) (fs v) fd i free g (rw read.1 at closed.1),
              ))
        (λ bad. cc)

  -- With an operating system that behaves as documented Head ends and changes no file. It
  -- reports the header of a well-formed chunk file under the chunk's path, Corruption for a
  -- malformed one and NotFound only where there is none; otherwise it refuses an invalid id or
  -- reports an I/O error.
  pub head-Ensures :
      (s : State)
      → Ensures
          (head os root chunk_id s)
          (λ r t. HeadOutcome root chunk_id (fs s) r × (fs t ≡ fs s))
  unfolding head from_status
  head-Ensures s =
      let path = path_for root chunk_id in
      Ensures-if (is_ok (validate_id chunk_id)) _ _ s
        (λ _.
          head_opened-Ensures s (open_file path read_no_follow s).1
            (open_file path read_no_follow s).0 (laws.open_no_follow path s)
            (laws.open_enoent path s))
        (λ bad. Ensures-some (bad_id refl (validate_id-code chunk_id bad) bad, refl))
