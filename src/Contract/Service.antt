-- ===== src/Contract/Service.antt =====
-- DataPlaneService, src/storage/worker/data_plane_service.cpp, over a ChunkStore that keeps its
-- promise, call after call.
use distributed_cache_system.Prelude.{ℕ, ◌+◌, ◌<◌, refl, Option, not, List, [], ◌∷◌, All}
use distributed_cache_system.Prelude.Action.{Ensures, Ensures-some, Ensures-if, Ensures-bind}
use distributed_cache_system.Status.{status, is_ok, from_status, normalize_error}
use distributed_cache_system.Types.{
  u64, ChunkId, valid, PutChunkRequest, GetChunkRequest, validate_checksum,
}
use distributed_cache_system.Blake3.{Blake3}
use distributed_cache_system.Worker.Streams.{InputStream, OutputStream, IsHonest}
use distributed_cache_system.Worker.Header.{k_header_size}
use distributed_cache_system.Rpc.DataPlane.{
  ChunkStore, put_chunk, get_chunk, head_chunk, delete_chunk,
}
use distributed_cache_system.Contract.{
  ChunkMap, IsId, IsKept, PutObeys, put_refused, DeleteObeys, not_removed, HeadObeys, head_refused,
  GetObeys, get_refused, IsChunkStore,
}
use distributed_cache_system.Contract.Histories.{
  Call, put_call, get_call, head_call, delete_call, with_stream, serve, serve_all, IsProper, Obeys,
  put_obeyed, get_obeyed, head_obeyed, delete_obeyed, History, no_calls, then_calls,
}

module _ {S X A B : Type 0} where
  Ensures-with_stream :
      {r : Option (A × (S × X))} (reply : A → X → B) {P : A → S × X → Type 0} {Q : B → S → Type 0}
      → Ensures r P
      → ((a : A) (t : S × X) → P a t → Q (reply a t.1) t.0)
      → Ensures (with_stream reply r) Q
  Ensures-with_stream reply h k = rw h.returned (Ensures-some (k h.value h.state h.holds))

module _ {S : Type 0} (b : Blake3) (store : ChunkStore S) (view : S → ChunkMap)
    (IsSound : S → Type 0) (laws : IsChunkStore b store view IsSound) where
  put_chunk-PutObeys :
      {W : Type 0} (input : InputStream W) (honest : IsHonest input) (address : ℕ)
      (request : PutChunkRequest) (s : S) (w : W)
      → IsId request.chunk_id
      → request.expected_size + k_header_size < u64
      → IsSound s
      → Ensures
          (put_chunk store input address request (s, w))
          (λ st t. PutObeys b input request w st (view s) (view t.0) × IsSound t.0)
  unfolding put_chunk status
  put_chunk-PutObeys input honest address request s w is fits sound =
      Ensures-if (not (valid request.chunk_id.value)) _ _ (s, w)
        (λ _. Ensures-some (put_refused refl (λ q _. refl), sound))
        (λ _.
          Ensures-if (is_ok (validate_checksum request.expected_checksum)) _ _ (s, w)
            (λ _. laws.puts input honest address request s w is fits sound)
            (λ bad. Ensures-some (put_refused bad (λ q _. refl), sound)))

  delete_chunk-DeleteObeys :
      (chunk_id : ChunkId) (s : S)
      → IsId chunk_id
      → IsSound s
      → Ensures
          (delete_chunk store chunk_id s)
          (λ st t. DeleteObeys chunk_id st (view s) (view t) × IsSound t)
  unfolding delete_chunk status
  delete_chunk-DeleteObeys chunk_id s is sound =
      Ensures-if (not (valid chunk_id.value)) _ _ s
        (λ _. Ensures-some (not_removed refl (λ x. cc) (λ q _. refl), sound))
        (λ _. laws.deletes chunk_id s is sound)

  pub head_chunk-HeadObeys :
      (chunk_id : ChunkId) (s : S)
      → IsId chunk_id
      → IsSound s
      → Ensures
          (head_chunk store chunk_id s)
          (λ r t. HeadObeys b chunk_id r (view s) × IsKept (view s) (view t) × IsSound t)
  unfolding head_chunk status from_status normalize_error
  head_chunk-HeadObeys chunk_id s is sound =
      Ensures-if (not (valid chunk_id.value)) _ _ s
        (λ _. Ensures-some (head_refused refl (λ x. cc) (λ x. cc), (λ q _. refl), sound))
        (λ _. laws.heads chunk_id s is sound)

  pub get_chunk-GetObeys :
      {V : Type 0} (output : OutputStream V) (request : GetChunkRequest) (s : S) (v : V)
      → IsId request.chunk_id
      → IsSound s
      → Ensures (get_chunk store output request (s, v)) (λ st t.
        GetObeys b output request v st t.1 (view s) × IsKept (view s) (view t.0) × IsSound t.0)
  unfolding get_chunk status
  get_chunk-GetObeys output request s v is sound =
      Ensures-if (not (valid request.chunk_id.value)) _ _ (s, v)
        (λ _. Ensures-some (get_refused refl refl, (λ q _. refl), sound))
        (λ _. laws.gets output request s v is sound)

  module _ {W V : Type 0} (input : InputStream W) (honest : IsHonest input)
      (output : OutputStream V) where
    serve-Obeys :
        (call : Call W V) (s : S)
        → IsProper call
        → IsSound s
        → Ensures
            (serve store input output call s)
            (λ r t. Obeys b input output (view s) (view t) call r × IsSound t)
    unfolding serve
    serve-Obeys (put_call address request w) s proper sound =
        Ensures-with_stream _
          (put_chunk-PutObeys input honest address request s w proper.0 proper.1 sound)
          λ st t h. (put_obeyed h.0, h.1)
    serve-Obeys (get_call request v) s proper sound =
        Ensures-with_stream _ (get_chunk-GetObeys output request s v proper sound)
          λ st t h. (get_obeyed h.0 h.1, h.2)
    serve-Obeys (head_call chunk_id) s proper sound =
        Ensures-bind _ (head_chunk-HeadObeys chunk_id s proper sound)
          λ r t h. Ensures-some (head_obeyed h.0 h.1, h.2)
    serve-Obeys (delete_call chunk_id) s proper sound =
        Ensures-bind _ (delete_chunk-DeleteObeys chunk_id s proper sound)
          λ st t h. Ensures-some (delete_obeyed h.0, h.1)

    -- Over a ChunkStore that keeps its promise, every sequence of calls of DataPlaneService with
    -- ids that are byte strings and requests to Put whose size and header stay below 2^64 bytes
    -- ends, with replies that the promise allows, one for each call, and leaves the store in a
    -- state from which it keeps its promise.
    pub serve_all-History :
        (calls : List (Call W V)) (s : S)
        → All IsProper calls
        → IsSound s
        → Ensures
            (serve_all store input output calls s)
            (λ replies t. History b input output (view s) (view t) calls replies × IsSound t)
    unfolding serve_all
    serve_all-History [] s proper sound = Ensures-some (no_calls, sound)
    serve_all-History (call ∷ calls) s proper sound =
        Ensures-bind _ (serve-Obeys call s proper.0 sound) λ reply t first.
          Ensures-bind _ (serve_all-History calls t proper.1 first.1)
            λ replies u rest. Ensures-some (then_calls first.0 rest.0, rest.1)
