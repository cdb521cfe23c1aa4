-- ===== src/Contract/FileReads.antt =====
-- FileChunkStore::Head and Get, and the promise of a ChunkStore.
use distributed_cache_system.Prelude.{
  ℕ, ◌≡◌, refl, sym, ◌∙◌, List, take, drop, length, length-drop, arith,
}
use distributed_cache_system.Prelude.Action.{Ensures, Ensures_mono}
use distributed_cache_system.Status.{Status, StatusOr}
use distributed_cache_system.Types.{ChunkId, GetChunkRequest, HeadChunkResponse}
use distributed_cache_system.Posix.{Fs, Posix}
use distributed_cache_system.Posix.Documented.{IsDocumented}
use distributed_cache_system.Blake3.{Blake3}
use distributed_cache_system.Worker.Streams.{OutputStream}
use distributed_cache_system.Worker.Header.{k_header_size, header_size}
use distributed_cache_system.Worker.FileChunkStore.Head.{head}
use distributed_cache_system.Worker.FileChunkStore.Head.Header.{IsChunkFile}
use distributed_cache_system.Worker.FileChunkStore.Head.Outcome.{
  HeadOutcome, bad_id, io_failed, not_found, corrupt, found, head-Ensures,
}
use distributed_cache_system.Worker.FileChunkStore.Get.{get}
use distributed_cache_system.Worker.FileChunkStore.Get.Outcome.{
  GetOutcome, nothing_sent, range_sent, get-Ensures,
}
use distributed_cache_system.Contract.{
  IsId, IsKept, HeadObeys, head_refused, head_reports, GetObeys, get_refused, get_sends,
}
use distributed_cache_system.Contract.Files.{
  chunk_of, chunks, IsSound, same_files, same_files-IsSound,
}

-- The size that Head reports is that of the chunk.
data_size :
    (contents : List ℕ)
    → IsChunkFile contents
    → header_size (take k_header_size contents) ≡ length (drop k_header_size contents)
data_size contents well = omega (arith, well.size, length-drop k_header_size contents)

module _ (b : Blake3) (root : List ℕ) (f : Fs) (sound : IsSound b root f) where
  head_obeys :
      (chunk_id : ChunkId) (r : StatusOr HeadChunkResponse)
      → IsId chunk_id
      → HeadOutcome root chunk_id f r
      → HeadObeys b chunk_id r (chunks root f)
  head_obeys chunk_id r is (bad_id e why bad) = head_refused e (λ x. cc) (λ x. cc)
  head_obeys chunk_id r is (io_failed e why) = head_refused e (λ x. cc) (λ x. cc)
  head_obeys chunk_id r is (not_found e why absent) = head_refused e (λ x. cc) (λ x. rw absent refl)
  head_obeys chunk_id r is (corrupt i e why there bad) =
      absurd (bad (sound.well_formed chunk_id i is there))
  head_obeys chunk_id r is (found i e there well) =
      head_reports (chunk_of (f.bytes i)) (rw there refl) (sound.intact chunk_id i is there)
        (e ∙ rw (data_size (f.bytes i) well) refl)

  get_obeys :
      {V : Type 0} (output : OutputStream V) (request : GetChunkRequest) (v v' : V) (st : Status)
      → IsId request.chunk_id
      → GetOutcome output root request f v st v'
      → GetObeys b output request v st v' (chunks root f)
  get_obeys output request v v' st is (nothing_sent bad e) = get_refused bad e
  get_obeys output request v v' st is (range_sent i there well inside sent) =
      get_sends (chunk_of (f.bytes i)) (rw there refl) (sound.intact request.chunk_id i is there)
        (omega (arith, inside, length-drop k_header_size (f.bytes i))) sent

module _ (os : Posix) (laws : IsDocumented os) (b : Blake3) (root : List ℕ) where
  pub head-HeadObeys :
      (chunk_id : ChunkId) (s : os.State)
      → IsId chunk_id
      → IsSound b root (os.fs s)
      → Ensures (head os root chunk_id s) (λ r t.
        HeadObeys b chunk_id r (chunks root (os.fs s))
        × IsKept (chunks root (os.fs s)) (chunks root (os.fs t))
        × IsSound b root (os.fs t))
  head-HeadObeys chunk_id s is sound = Ensures_mono (head-Ensures os laws root chunk_id s) λ r t h.
      (
        head_obeys b root (os.fs s) sound chunk_id r is h.0,
        same_files b root (os.fs s) (os.fs t) (sym h.1),
        same_files-IsSound b root (os.fs s) (os.fs t) (sym h.1) sound,
      )

  pub get-GetObeys :
      {V : Type 0} (output : OutputStream V) (request : GetChunkRequest) (s : os.State) (v : V)
      → IsId request.chunk_id
      → IsSound b root (os.fs s)
      → Ensures (get os output root request (s, v)) (λ st t.
        GetObeys b output request v st t.1 (chunks root (os.fs s))
        × IsKept (chunks root (os.fs s)) (chunks root (os.fs t.0))
        × IsSound b root (os.fs t.0))
  get-GetObeys output request s v is sound =
      Ensures_mono (get-Ensures os laws output root request s v) λ st t h. (
        get_obeys b root (os.fs s) sound output request v t.1 st is h.0,
        same_files b root (os.fs s) (os.fs t.0) (sym h.1),
        same_files-IsSound b root (os.fs s) (os.fs t.0) (sym h.1) sound,
      )
