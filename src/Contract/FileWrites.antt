-- ===== src/Contract/FileWrites.antt =====
-- FileChunkStore::Put and Delete, and the promise of a ChunkStore.
use distributed_cache_system.Prelude.{
  ℕ, ◌+◌, ◌<◌, ◌≡◌, ◌≢◌, refl, sym, ap, subst, ◌⊎◌, inl, inr, Bool-cases, true, false, List,
}
use distributed_cache_system.Prelude.Action.{Ensures, Ensures-of, Ensures_returned, Ensures_mono}
use distributed_cache_system.Status.{Status, is_ok}
use distributed_cache_system.Types.{u64, ChunkId, PutChunkRequest, validate_checksum}
use distributed_cache_system.Posix.{Fs, Posix}
use distributed_cache_system.Posix.Documented.{IsDocumented}
use distributed_cache_system.Blake3.{Blake3, IsBlake3}
use distributed_cache_system.Worker.Streams.{InputStream, IsHonest}
use distributed_cache_system.Worker.Names.{path_for, temp_path}
use distributed_cache_system.Worker.Names.Distinct.{temp_path-ne-path_for}
use distributed_cache_system.Worker.Header.{k_header_size}
use distributed_cache_system.Worker.FileChunkStore.Put.{put}
use distributed_cache_system.Worker.FileChunkStore.Put.Fill.{IsChunk, chunk_file}
use distributed_cache_system.Worker.FileChunkStore.Put.Outcome.{
  PutOutcome, AtFinal, left_alone, stored,
}
use distributed_cache_system.Worker.FileChunkStore.Put.Atomic.{put-Ensures}
use distributed_cache_system.Worker.FileChunkStore.Put.Checked.{put_checked}
use distributed_cache_system.Worker.FileChunkStore.Delete.{DeleteOutcome, delete, delete-Ensures}
use distributed_cache_system.Worker.FileChunkStore.RoundTrip.{
  drop-chunk_file, chunk_file-IsChunkFile, reported-chunk_file,
}
use distributed_cache_system.Contract.{
  IsId, IsIntact, PutObeys, put_refused, put_stored, DeleteObeys, removed, not_removed,
}
use distributed_cache_system.Contract.Files.{
  chunk_of, chunks, IsSound, IsSameFile, chunk_there, same_chunk, same_files, same_files-IsSound,
}
use distributed_cache_system.Contract.FilePaths.{
  other_path, taken_out, taken_out-IsSound, all_kept, all_kept-IsSound, put_in-IsSound,
}

module _ (b : Blake3) (root : List ℕ) where
  module _ (f g : Fs) (chunk_id : ChunkId) (st : Status) (is : IsId chunk_id)
      (sound : IsSound b root f) (h : DeleteOutcome (path_for root chunk_id) f st g) where
    delete_kept :
        is_ok st ≡ false
        → DeleteObeys chunk_id st (chunks root f) (chunks root g) × IsSound b root g
    delete_kept bad = (
      not_removed bad (λ missing. rw (h.absent missing) refl)
          (same_files b root f g (sym (h.kept bad))),
      same_files-IsSound b root f g (sym (h.kept bad)) sound,
    )

    delete_removed :
        is_ok st ≡ true → DeleteObeys chunk_id st (chunks root f) (chunks root g) × IsSound b root g
    delete_removed okay = (
      removed okay (chunk_there f _ (h.removed okay).0)
          (taken_out b root f g chunk_id is (h.removed okay).1),
      taken_out-IsSound b root f g chunk_id is (h.removed okay).1 sound,
    )

    delete_obeys : DeleteObeys chunk_id st (chunks root f) (chunks root g) × IsSound b root g
    delete_obeys = elim (Bool-cases (is_ok st)) [
      | inl okay ↦ delete_removed okay
      | inr bad ↦ delete_kept bad
    ]

  module _ (os : Posix) {W : Type 0} (input : InputStream W) (request : PutChunkRequest)
      (address : ℕ) (is : IsId request.chunk_id)
      (fits : request.expected_size + k_header_size < u64) where
    module _ (chunk : List ℕ) (valid : is_ok (validate_checksum request.expected_checksum) ≡ true)
        (chunk_is : IsChunk b request chunk) where
      chunk_of-chunk_file :
          chunk_of (chunk_file request chunk)
          ≡ record { checksum = request.expected_checksum; bytes = chunk }
      chunk_of-chunk_file = λ i. record {
        checksum =
            (reported-chunk_file request chunk valid chunk_is.size fits request.chunk_id
              i).checksum;
        bytes = drop-chunk_file request chunk valid chunk_is.size fits i;
      }

      chunk_of-IsIntact : IsIntact b (chunk_of (chunk_file request chunk))
      chunk_of-IsIntact = subst (IsIntact b) (sym chunk_of-chunk_file) chunk_is.checksum

    module _ (f g : Fs) (w w' : W) (st : Status)
        (h : PutOutcome b request input
          (temp_path os root (path_for root request.chunk_id) address)
          (path_for root request.chunk_id)
          f
          w
          st
          g
          w')
        (sound : IsSound b root f) where
      other_chunks :
          (q : ChunkId)
          → IsId q
          → request.chunk_id ≢ q
          → IsSameFile f g (f.entry (path_for root q)) (g.entry (path_for root q))
      other_chunks q is_q other = record {
        same_entry =
            h.others (path_for root q)
              (temp_path-ne-path_for os root request.chunk_id q address is is_q)
              (other_path b root f g request.chunk_id is q is_q other);
        same_contents = λ i e. h.contents (path_for root q) i e;
      }

      put_obeys :
          (is_ok (validate_checksum request.expected_checksum) ≡ true)
            ⊎ ((is_ok st ≡ false) × (g ≡ f))
          → AtFinal b request input (path_for root request.chunk_id) f w st g w'
          → PutObeys b input request w st (chunks root f) (chunks root g) × IsSound b root g
      put_obeys valid (left_alone bad kept) =
          let this : IsSameFile f g (f.entry (path_for root request.chunk_id))
              (g.entry (path_for root request.chunk_id)) =
            record {
              same_entry = kept;
              same_contents = h.contents (path_for root request.chunk_id);
            } in
          (
            put_refused bad λ q is_q.
                same_chunk f g _ _
                  (all_kept b root f g request.chunk_id is other_chunks this q is_q),
            all_kept-IsSound b root f g request.chunk_id is other_chunks this sound,
          )
      put_obeys (inr unchanged) (stored i chunk free named file chunk_is given) =
          cc (ap (λ (x : Fs). x.entry (path_for root request.chunk_id)) unchanged.1)
      put_obeys (inl valid) (stored i chunk free named file chunk_is given) = (
        put_stored chunk w' (rw free refl)
            (record {
              at_id = rw (named, file, chunk_of-chunk_file chunk valid chunk_is) refl;
              elsewhere = λ q is_q other. same_chunk f g _ _ (other_chunks q is_q other);
            })
            chunk_is given,
        put_in-IsSound b root f g request.chunk_id is other_chunks i named
            (rw file (chunk_file-IsChunkFile request chunk valid chunk_is.size fits))
            (rw file (chunk_of-IsIntact chunk valid chunk_is)) sound,
      )

module _ (os : Posix) (laws : IsDocumented os) (b : Blake3) (root : List ℕ) where
  pub delete-DeleteObeys :
      (chunk_id : ChunkId) (s : os.State)
      → IsId chunk_id
      → IsSound b root (os.fs s)
      → Ensures (delete os root chunk_id s) (λ st t.
        DeleteObeys chunk_id st (chunks root (os.fs s)) (chunks root (os.fs t))
        × IsSound b root (os.fs t))
  delete-DeleteObeys chunk_id s is sound =
      Ensures_mono (delete-Ensures os laws root chunk_id s)
        λ st t h. delete_obeys b root (os.fs s) (os.fs t) chunk_id st is sound h

  pub put-PutObeys :
      IsBlake3 b
      → {W : Type 0} (input : InputStream W) (honest : IsHonest input) (address : ℕ)
        (request : PutChunkRequest) (s : os.State) (w : W)
      → IsId request.chunk_id
      → request.expected_size + k_header_size < u64
      → IsSound b root (os.fs s)
      → Ensures (put os b input request root address (s, w)) (λ st t.
        PutObeys b input request w st (chunks root (os.fs s)) (chunks root (os.fs t.0))
        × IsSound b root (os.fs t.0))
  put-PutObeys hashes input honest address request s w is fits sound =
      let outcome = put-Ensures os laws b hashes input honest request root address s w in
      Ensures_mono
        (Ensures_returned (put_checked os laws b hashes input honest request root address s w))
        λ st t h.
          let left = Ensures-of outcome h.1 in
          put_obeys b root os input request address is fits (os.fs s) (os.fs t.0) w t.1 st left
            sound h.0 left.at_final
