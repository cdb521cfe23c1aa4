-- ===== src/Worker/FileChunkStore/Delete.antt =====
-- FileChunkStore::Delete.
use distributed_cache_system.Prelude.{
  ℕ, ◌≡◌, ◌≢◌, refl, Bool, Bool-cases, inl, inr, true, false, none, List, ◌++◌, ◌==◌, if◌then◌else◌,
  text, arith,
}
use distributed_cache_system.Prelude.Action.{
  Action, pure, call, gets, ◌>>=◌, Ensures, Ensures-some, Ensures-if,
}
use distributed_cache_system.Status.{Status, ok, status, is_ok, unless_failed, k_not_found}
use distributed_cache_system.Types.{ChunkId}
use distributed_cache_system.Posix.{FilePath, Fs, Posix, with_entry}
use distributed_cache_system.Posix.Documented.{IsDocumented, EntryOutcome, entry_kept, entry_set}
use distributed_cache_system.Worker.Names.{validate_id, path_for}
use distributed_cache_system.Worker.FileChunkStore.Put.{io_error, path_string}

module _ (os : Posix) where
  -- Delete with what unlink has returned.
  unfoldable pub unlinked_status : ChunkId → FilePath → Bool → Action os.State Status
  unfolding io_error status
  unlinked_status chunk_id path true = pure ok
  unlinked_status chunk_id path false = do
    e ← gets os.errno
    pure (
        if e == os.enoent
        then status k_not_found (text "chunk not found: " ++ chunk_id.value)
        else io_error os "delete" (path_string path) e)

  -- FileChunkStore::Delete
  unfoldable pub delete : List ℕ → ChunkId → Action os.State Status
  unfolding unlinked_status
  delete root chunk_id = unless_failed (validate_id chunk_id) (do
    removed ← call (os.unlink (path_for root chunk_id))
    unlinked_status chunk_id (path_for root chunk_id) removed)

-- Delete removes one name that was there, or changes nothing.
pub record DeleteOutcome (path : FilePath) (f : Fs) (st : Status) (g : Fs) : Type 0 where
  pub removed : is_ok st ≡ true → (f.entry path ≢ none) × (g ≡ with_entry f path none)
  pub kept : is_ok st ≡ false → g ≡ f
  pub absent : st.code ≡ k_not_found → f.entry path ≡ none

module _ (os : Posix) (laws : IsDocumented os) (root : List ℕ) (chunk_id : ChunkId) where
  open os use {State, fs, errno, enoent, unlink}

  unlinked_status-Ensures :
      (s : State) (r : Bool)
      → (unlink (path_for root chunk_id) s).0 ≡ r
      → EntryOutcome
          (fs s)
          (path_for root chunk_id)
          none
          r
          (fs (unlink (path_for root chunk_id) s).1)
      → Ensures
          (unlinked_status os chunk_id
            (path_for root chunk_id)
            r
            (unlink (path_for root chunk_id) s).1)
          (λ st t. DeleteOutcome (path_for root chunk_id) (fs s) st (fs t))
  unfolding unlinked_status
  unlinked_status-Ensures s true e (entry_kept bad g) = cc
  unlinked_status-Ensures s true e (entry_set done g) = Ensures-some (record {
    removed = λ _. (laws.unlink_entry (path_for root chunk_id) s e, g);
    kept = λ x. cc;
    absent = λ x. cc;
  })
  unlinked_status-Ensures s false e (entry_set bad g) = cc
  unlinked_status-Ensures s false e (entry_kept done g) =
      let path = path_for root chunk_id in
      elim (Bool-cases (errno (unlink path s).1 == enoent)) [
        | inl there_is_none ↦ rw there_is_none (
            Ensures-some (record {
              removed = λ x. cc;
              kept = λ _. g;
              absent = λ _. laws.unlink_enoent path s e (ground arith);
            }))
        | inr other ↦
            rw other (Ensures-some (record { removed = λ x. cc; kept = λ _. g; absent = λ x. cc }))
      ]

  validate_id-not_k_not_found : (validate_id chunk_id).code ≢ k_not_found
  unfolding validate_id
  validate_id-not_k_not_found e = ground arith

  -- With an operating system that behaves as documented Delete ends. Where it returns OK it has
  -- removed the chunk's name, which was there, and nothing else; otherwise no file has changed,
  -- and NotFound means that there was no such name.
  pub delete-Ensures :
      (s : State)
      → Ensures
          (delete os root chunk_id s)
          (λ st t. DeleteOutcome (path_for root chunk_id) (fs s) st (fs t))
  unfolding delete
  delete-Ensures s =
      let path = path_for root chunk_id in
      Ensures-if (is_ok (validate_id chunk_id)) _ _ s
        (λ _. unlinked_status-Ensures s (unlink path s).0 refl (laws.unlink_removes path s))
        (λ bad. Ensures-some (record {
          removed = λ x. cc;
          kept = λ _. refl;
          absent = λ x. absurd (validate_id-not_k_not_found x);
        }))
