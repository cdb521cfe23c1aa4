-- ===== src/Contract/Immutable.antt =====
-- A stored chunk over a sequence of calls of src/storage/worker/data_plane_service.cpp over a
-- FileChunkStore.
use distributed_cache_system.Prelude.{
  ℕ, ◌+◌, ◌≤◌, ◌≡◌, ◌≢◌, sym, ap, ◌∙◌, ◌⊎◌, inl, inr, false, none, some, List, All, ◌&&◌, length,
  arith,
}
use mathlib.Core.Option.{some-injective}
use distributed_cache_system.Prelude.Action.{Ensures, Ensures-of, Ensures_mono}
use distributed_cache_system.Status.{Status, is_ok, StatusOr, k_not_found, k_corruption}
use distributed_cache_system.Types.{ByteRange, ChunkId, HeadChunkResponse, PutChunkRequest}
use distributed_cache_system.Posix.{Posix}
use distributed_cache_system.Posix.Documented.{IsDocumented}
use distributed_cache_system.Blake3.{Blake3, IsBlake3}
use distributed_cache_system.Worker.Streams.{InputStream, OutputStream, IsHonest, Sent}
use distributed_cache_system.Worker.FileChunkStore.Get.Loop.{slice}
use distributed_cache_system.Rpc.DataPlane.{ChunkStore, file_chunk_store, get_chunk, head_chunk}
use distributed_cache_system.Contract.{
  StoredChunk, ChunkMap, IsId, PutObeys, put_refused, put_stored, DeleteObeys, removed, not_removed,
  HeadObeys, head_refused, head_reports, GetObeys, get_refused, get_sends, IsChunkStore,
}
use distributed_cache_system.Contract.Files.{chunks, IsSound}
use distributed_cache_system.Contract.FilePaths.{same_or_other}
use distributed_cache_system.Contract.FileChunkStore.{file_chunk_store-IsChunkStore}
use distributed_cache_system.Contract.Histories.{
  Call, Reply, serve_all, IsProper, Obeys, put_obeyed, get_obeyed, head_obeyed, delete_obeyed,
  History, no_calls, then_calls,
}
use distributed_cache_system.Contract.Service.{
  head_chunk-HeadObeys, get_chunk-GetObeys, serve_all-History,
}
use distributed_cache_system.Contract.Accounts.{
  is_id, is_id_self, counted, delete_count, deletes_ok,
}

module _ {W V : Type 0} (b : Blake3) (input : InputStream W) (output : OutputStream V)
    (chunk_id : ChunkId) (is : IsId chunk_id) (c : StoredChunk) where
  put_keeps :
      {m n : ChunkMap} {request : PutChunkRequest} {w : W} {st : Status}
      → PutObeys b input request w st m n
      → m chunk_id ≡ some c
      → n chunk_id ≡ some c
  put_keeps (put_refused bad kept) there = kept chunk_id is ∙ there
  put_keeps {m} {request} (put_stored chunk w' free sets chunk_is given) there =
      elim (same_or_other request.chunk_id chunk_id) [
        | inl same ↦ cc (ap m same)
        | inr other ↦ sets.elsewhere chunk_id is other ∙ there
      ]

  delete_keeps :
      {m n : ChunkMap} {q : ChunkId} {st : Status}
      → DeleteObeys q st m n
      → counted (is_id chunk_id q && is_ok st) ≡ 0
      → m chunk_id ≡ some c
      → n chunk_id ≡ some c
  delete_keeps {q} (removed okay was sets) uncounted there = elim (same_or_other q chunk_id) [
    | inl same ↦ ground (arith, is_id_self chunk_id q (sym same))
    | inr other ↦ sets.elsewhere chunk_id is other ∙ there
  ]
  delete_keeps (not_removed bad missing kept) uncounted there = kept chunk_id is ∙ there

  step_keeps :
      {m n : ChunkMap} {call : Call W V} {reply : Reply V}
      → Obeys b input output m n call reply
      → delete_count chunk_id call reply ≡ 0
      → m chunk_id ≡ some c
      → n chunk_id ≡ some c
  step_keeps (put_obeyed h) uncounted there = put_keeps h there
  step_keeps (get_obeyed h kept) uncounted there = kept chunk_id is ∙ there
  step_keeps (head_obeyed h kept) uncounted there = kept chunk_id is ∙ there
  step_keeps (delete_obeyed h) uncounted there = delete_keeps h uncounted there

  History-keeps :
      {m n : ChunkMap} {calls : List (Call W V)} {replies : List (Reply V)}
      → History b input output m n calls replies
      → deletes_ok chunk_id calls replies ≡ 0
      → m chunk_id ≡ some c
      → n chunk_id ≡ some c
  unfolding deletes_ok
  History-keeps no_calls uncounted there = there
  History-keeps (then_calls first rest) uncounted there =
      History-keeps rest (omega arith) (step_keeps first (omega arith) there)

-- What HeadChunk and GetChunk answer for a chunk that the store holds.
pub record Shows {S : Type 0} (store : ChunkStore S) (chunk_id : ChunkId) (c : StoredChunk) (s : S)
    : Type 1 where
  pub heads : Ensures (head_chunk store chunk_id s) (λ r t.
      ((r.held_value ≡ none)
        × (r.held_status.code ≢ k_not_found)
        × (r.held_status.code ≢ k_corruption))
      ⊎ (r.held_value
          ≡ some (record { chunk_id = chunk_id; size = length c.bytes; checksum = c.checksum })))
  pub gets :
      {V : Type 0} (output : OutputStream V) (range : ByteRange) (v : V)
      → Ensures
          (get_chunk store output (record { chunk_id = chunk_id; range = range }) (s, v))
          (λ st t.
            ((is_ok st ≡ false) × (t.1 ≡ v))
            ⊎ ((range.offset + range.size ≤ length c.bytes)
                × Sent output st v (slice c.bytes range.offset range.size) t.1))

module _ {S : Type 0} (b : Blake3) (store : ChunkStore S) (view : S → ChunkMap)
    (IsSound : S → Type 0) (laws : IsChunkStore b store view IsSound) (chunk_id : ChunkId)
    (is : IsId chunk_id) (c : StoredChunk) (s : S) (sound : IsSound s)
    (there : view s chunk_id ≡ some c) where
  shown_head :
      (r : StatusOr HeadChunkResponse)
      → HeadObeys b chunk_id r (view s)
      → ((r.held_value ≡ none)
          × (r.held_status.code ≢ k_not_found)
          × (r.held_status.code ≢ k_corruption))
        ⊎ (r.held_value
            ≡ some (record { chunk_id = chunk_id; size = length c.bytes; checksum = c.checksum }))
  shown_head r (head_refused e why missing) = inl (e, (λ x. cc (missing x)), why)
  shown_head r (head_reports d named intact e) =
      let same : d ≡ c = some-injective _ _ (sym named ∙ there) in inr (rw same at e)

  shown_get :
      {V : Type 0} (output : OutputStream V) (range : ByteRange) (v v' : V) (st : Status)
      → GetObeys b output (record { chunk_id = chunk_id; range = range }) v st v' (view s)
      → ((is_ok st ≡ false) × (v' ≡ v))
        ⊎ ((range.offset + range.size ≤ length c.bytes)
            × Sent output st v (slice c.bytes range.offset range.size) v')
  shown_get output range v v' st (get_refused bad e) = inl (bad, e)
  shown_get output range v v' st (get_sends d named intact inside sent) =
      let same : d ≡ c = some-injective _ _ (sym named ∙ there) in
      inr (rw same at inside, rw same at sent)

  held-Shows : Shows store chunk_id c s
  held-Shows = record {
    heads =
        Ensures_mono (head_chunk-HeadObeys b store view IsSound laws chunk_id s is sound)
          λ r t h. shown_head r h.0;
    gets = λ output range v.
        Ensures_mono
          (get_chunk-GetObeys b store view IsSound laws output
            (record { chunk_id = chunk_id; range = range }) s v is sound)
          λ st t h. shown_get output range v t.1 st h.0;
  }

-- With an operating system and a hash that behave as documented, from files that are each well
-- formed and match the checksum in their header: a chunk that a FileChunkStore holds under an id
-- that is a byte string is there unchanged after every sequence of calls of DataPlaneService, with
-- ids that are byte strings and requests to Put whose size and header stay below 2^64 bytes, in
-- which no Delete of it returns OK. HeadChunk then ends and reports the chunk's size and checksum,
-- or fails with another code than NotFound and Corruption; GetChunk ends, and fails and sends
-- nothing, or the range lies inside the chunk and it sends the range's bytes in order, all of them
-- where it returns OK.
pub serve_all-Shows :
    (os : Posix) (laws : IsDocumented os) (b : Blake3) (hashes : IsBlake3 b) (root : List ℕ)
    {W V : Type 0} (input : InputStream W) (honest : IsHonest input) (output : OutputStream V)
    (calls : List (Call W V)) (replies : List (Reply V)) (s t : os.State) (chunk_id : ChunkId)
    (c : StoredChunk)
    → All IsProper calls
    → IsSound b root (os.fs s)
    → IsId chunk_id
    → chunks root (os.fs s) chunk_id ≡ some c
    → serve_all (file_chunk_store os b root) input output calls s ≡ some (replies, t)
    → deletes_ok chunk_id calls replies ≡ 0
    → (chunks root (os.fs t) chunk_id ≡ some c) × Shows (file_chunk_store os b root) chunk_id c t
serve_all-Shows os laws b hashes root input honest output calls replies s t chunk_id c proper sound
      is there ran undeleted =
    let kept =
      Ensures-of
        (serve_all-History b (file_chunk_store os b root) _ _
          (file_chunk_store-IsChunkStore os laws b hashes root) input honest output calls s proper
          sound)
        ran in
    let after = History-keeps b input output chunk_id is c kept.0 undeleted there in
    (
      after,
      held-Shows b (file_chunk_store os b root) _ _
          (file_chunk_store-IsChunkStore os laws b hashes root) chunk_id is c t kept.1 after,
    )
