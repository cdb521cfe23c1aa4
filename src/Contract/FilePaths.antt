-- ===== src/Contract/FilePaths.antt =====
-- One chunk's file among those of a FileChunkStore: what a call that touches it leaves.
use distributed_cache_system.Prelude.{
  ℕ, ◌≡◌, ◌≢◌, refl, sym, ap, ◌∙◌, ◌⊎◌, inl, inr, Bool-cases, Option, false, none, some, List,
  same_bytes, same_bytes→eq, same_bytes_refl, arith,
}
use mathlib.Core.Option.{some-injective}
use distributed_cache_system.Prelude.Maps.{update, update_self, update_ne}
use distributed_cache_system.Types.{ChunkId}
use distributed_cache_system.Posix.{FilePath, Fs, with_entry, path_eq}
use distributed_cache_system.Blake3.{Blake3}
use distributed_cache_system.Worker.Names.{path_for}
use distributed_cache_system.Worker.Names.Distinct.{path_for_injective}
use distributed_cache_system.Worker.FileChunkStore.Head.Header.{IsChunkFile}
use distributed_cache_system.Contract.{IsId, IsIntact, Sets}
use distributed_cache_system.Contract.Files.{
  chunk_of, chunks, IsSound, IsSameFile, kept_well_formed, kept-IsIntact,
}

different : (a c : ChunkId) → same_bytes a.value c.value ≡ false → a ≢ c
different a c other e =
    cc (same_bytes_refl a.value, ap (λ (x : ChunkId). same_bytes a.value x.value) e)

pub same_or_other : (a c : ChunkId) → (a ≡ c) ⊎ (a ≢ c)
same_or_other a c = elim (Bool-cases (same_bytes a.value c.value)) [
  | inl same ↦ inl (ap (λ v. record { value = v }) (same_bytes→eq a.value c.value same))
  | inr other ↦ inr (different a c other)
]

-- An entry that is left after one was taken out was there before.
entry_left :
    (entry : FilePath → Option ℕ) (path p : FilePath) (i : ℕ)
    → update entry path none p ≡ some i
    → entry p ≡ some i
unfolding update
entry_left entry path p i e = ground arith

module _ (b : Blake3) (root : List ℕ) (f g : Fs) (chunk_id : ChunkId) (is_id : IsId chunk_id) where
  pub other_path : (q : ChunkId) → IsId q → chunk_id ≢ q → path_for root chunk_id ≢ path_for root q
  other_path q is other e = other (path_for_injective root chunk_id q is_id is e)

  -- The chunk's name is taken out.
  pub taken_out :
      g ≡ with_entry f (path_for root chunk_id) none
      → Sets (chunks root f) chunk_id none (chunks root g)
  taken_out e = rw e (record {
    at_id = rw (update_self f.entry (path_for root chunk_id) none) refl;
    elsewhere = λ q is other.
        rw
          (update_ne f.entry (path_for root chunk_id) (path_for root q) none
            (other_path q is other))
          refl;
  })

  pub taken_out-IsSound :
      g ≡ with_entry f (path_for root chunk_id) none → IsSound b root f → IsSound b root g
  taken_out-IsSound e sound = rw e (record {
    well_formed = λ q i is there.
        sound.well_formed q i is
          (entry_left f.entry (path_for root chunk_id) (path_for root q) i there);
    intact = λ q i is there.
        sound.intact q i is (entry_left f.entry (path_for root chunk_id) (path_for root q) i there);
  })

  module _
      (others : (q : ChunkId)
        → IsId q
        → chunk_id ≢ q
        → IsSameFile f g (f.entry (path_for root q)) (g.entry (path_for root q))) where
    -- The other chunks are as they were, and so is this one.
    pub all_kept :
        IsSameFile f g (f.entry (path_for root chunk_id)) (g.entry (path_for root chunk_id))
        → (q : ChunkId) → IsId q
        → IsSameFile f g (f.entry (path_for root q)) (g.entry (path_for root q))
    all_kept this q is = elim (same_or_other chunk_id q) [
      | inl same ↦ rw (← same) this
      | inr other ↦ others q is other
    ]

    pub all_kept-IsSound :
        IsSameFile f g (f.entry (path_for root chunk_id)) (g.entry (path_for root chunk_id))
        → IsSound b root f
        → IsSound b root g
    all_kept-IsSound this sound = record {
      well_formed = λ q i is. kept_well_formed b root f g q i sound is (all_kept this q is);
      intact = λ q i is. kept-IsIntact b root f g q i sound is (all_kept this q is);
    }

    -- The chunk's name shows a new file.
    pub put_in-IsSound :
        (i : ℕ)
        → g.entry (path_for root chunk_id) ≡ some i
        → IsChunkFile (g.bytes i)
        → IsIntact b (chunk_of (g.bytes i))
        → IsSound b root f
        → IsSound b root g
    put_in-IsSound i named well intact sound = record {
      well_formed = λ q j is e. elim (same_or_other chunk_id q) [
        | inl same ↦
            rw (some-injective _ _ (sym named ∙ ap (λ a. g.entry (path_for root a)) same ∙ e)) at
              well
        | inr other ↦ kept_well_formed b root f g q j sound is (others q is other) e
      ];
      intact = λ q j is e. elim (same_or_other chunk_id q) [
        | inl same ↦
            rw (some-injective _ _ (sym named ∙ ap (λ a. g.entry (path_for root a)) same ∙ e)) at
              intact
        | inr other ↦ kept-IsIntact b root f g q j sound is (others q is other) e
      ];
    }
