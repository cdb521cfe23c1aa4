-- ===== src/Contract/Files.antt =====
-- The files of a FileChunkStore, seen as a map of chunks.
use distributed_cache_system.Prelude.{
  ℕ, ◌≡◌, ◌≢◌, refl, sym, ◌∙◌, Option, none, some, List, take, drop,
}
use distributed_cache_system.Types.{ChunkId}
use distributed_cache_system.Posix.{Fs}
use distributed_cache_system.Blake3.{Blake3}
use distributed_cache_system.Worker.Names.{path_for}
use distributed_cache_system.Worker.Header.{k_header_size, header_checksum}
use distributed_cache_system.Worker.FileChunkStore.Head.Header.{IsChunkFile}
use distributed_cache_system.Contract.{StoredChunk, ChunkMap, IsId, IsIntact, IsKept}

-- The chunk that a file holds.
abbrev pub chunk_of : List ℕ → StoredChunk
chunk_of contents = record {
  checksum = header_checksum (take k_header_size contents);
  bytes = drop k_header_size contents;
}

abbrev pub chunk_at : Fs → Option ℕ → Option StoredChunk
chunk_at f none = none
chunk_at f (some i) = some (chunk_of (f.bytes i))

-- The chunks under a root.
abbrev pub chunks : List ℕ → Fs → ChunkMap
chunks root f chunk_id = chunk_at f (f.entry (path_for root chunk_id))

-- Every chunk file under the root is well formed and has the checksum that its header announces.
pub record IsSound (b : Blake3) (root : List ℕ) (f : Fs) : Type 0 where
  pub well_formed :
      (q : ChunkId) (i : ℕ) → IsId q → f.entry (path_for root q) ≡ some i → IsChunkFile (f.bytes i)
  pub intact :
      (q : ChunkId) (i : ℕ)
      → IsId q
      → f.entry (path_for root q) ≡ some i
      → IsIntact b (chunk_of (f.bytes i))

-- A name that names the same file as before, with the same bytes.
pub record IsSameFile (f g : Fs) (o p : Option ℕ) : Type 0 where
  pub same_entry : p ≡ o
  pub same_contents : (i : ℕ) → o ≡ some i → g.bytes i ≡ f.bytes i

pub same_chunk : (f g : Fs) (o p : Option ℕ) → IsSameFile f g o p → chunk_at g p ≡ chunk_at f o
same_chunk f g none p h = rw h.same_entry refl
same_chunk f g (some i) p h = rw (h.same_entry, h.same_contents i refl) refl

pub chunk_there : (f : Fs) (o : Option ℕ) → o ≢ none → chunk_at f o ≢ none
chunk_there f none h = absurd (h refl)
chunk_there f (some i) h = λ e. cc

module _ (b : Blake3) (root : List ℕ) (f g : Fs) where
  -- What a name that is kept shows is as sound as before.
  pub kept_well_formed :
      (q : ChunkId) (i : ℕ)
      → IsSound b root f
      → IsId q
      → IsSameFile f g (f.entry (path_for root q)) (g.entry (path_for root q))
      → g.entry (path_for root q) ≡ some i
      → IsChunkFile (g.bytes i)
  kept_well_formed q i sound is h e =
      let there = sym h.same_entry ∙ e in
      rw (h.same_contents i there) (sound.well_formed q i is there)

  pub kept-IsIntact :
      (q : ChunkId) (i : ℕ)
      → IsSound b root f
      → IsId q
      → IsSameFile f g (f.entry (path_for root q)) (g.entry (path_for root q))
      → g.entry (path_for root q) ≡ some i
      → IsIntact b (chunk_of (g.bytes i))
  kept-IsIntact q i sound is h e =
      let there = sym h.same_entry ∙ e in rw (h.same_contents i there) (sound.intact q i is there)

  -- What a call that changes no file leaves.
  pub same_files : f ≡ g → IsKept (chunks root f) (chunks root g)
  same_files e q is = rw e refl

  pub same_files-IsSound : f ≡ g → IsSound b root f → IsSound b root g
  same_files-IsSound e sound = rw (← e) sound
