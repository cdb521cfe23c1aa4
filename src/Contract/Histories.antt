-- ===== src/Contract/Histories.antt =====
-- Sequences of calls of DataPlaneService, src/storage/worker/data_plane_service.cpp, over one
-- ChunkStore, and what the promise says of them.
use distributed_cache_system.Prelude.{ℕ, ◌+◌, ◌<◌, Option, none, some, List, [], ◌∷◌}
use distributed_cache_system.Prelude.Action.{Action, pure, ◌>>=◌}
use distributed_cache_system.Status.{Status, StatusOr}
use distributed_cache_system.Types.{
  u64, ChunkId, PutChunkRequest, GetChunkRequest, HeadChunkResponse,
}
use distributed_cache_system.Blake3.{Blake3}
use distributed_cache_system.Worker.Streams.{InputStream, OutputStream}
use distributed_cache_system.Worker.Header.{k_header_size}
use distributed_cache_system.Rpc.DataPlane.{
  ChunkStore, put_chunk, get_chunk, head_chunk, delete_chunk,
}
use distributed_cache_system.Contract.{
  ChunkMap, IsId, IsKept, PutObeys, DeleteObeys, HeadObeys, GetObeys,
}

-- A call, with the stream that it reads or writes. The number is the address of the input stream.
pub data Call (W V : Type 0) : Type 0 where
  put_call : ℕ → PutChunkRequest → W → Call W V
  get_call : GetChunkRequest → V → Call W V
  head_call : ChunkId → Call W V
  delete_call : ChunkId → Call W V

pub data Reply (V : Type 0) : Type 0 where
  put_reply : Status → Reply V
  get_reply : Status → V → Reply V
  head_reply : StatusOr HeadChunkResponse → Reply V
  delete_reply : Status → Reply V

module _ {S A X B : Type 0} where
  -- An action that has a stream of its own, which nothing reads after it but the reply.
  abbrev pub with_stream : (A → X → B) → Option (A × (S × X)) → Option (B × S)
  with_stream reply none = none
  with_stream reply (some (a, (s, x))) = some (reply a x, s)

module _ {S W V : Type 0} (store : ChunkStore S) (input : InputStream W)
    (output : OutputStream V) where
  unfoldable pub serve : Call W V → Action S (Reply V)
  serve (put_call address request w) s =
      with_stream (λ st w'. put_reply st) (put_chunk store input address request (s, w))
  serve (get_call request v) s = with_stream get_reply (get_chunk store output request (s, v))
  serve (head_call chunk_id) s = (head_chunk store chunk_id >>= λ r. pure (head_reply r)) s
  serve (delete_call chunk_id) s = (delete_chunk store chunk_id >>= λ st. pure (delete_reply st)) s

  -- One call after the other.
  unfoldable pub serve_all : List (Call W V) → Action S (List (Reply V))
  unfolding serve
  serve_all [] = pure []
  serve_all (call ∷ calls) = do
    reply ← serve call
    replies ← serve_all calls
    pure (reply ∷ replies)

-- Ids are byte strings, and a request's size and header stay below 2^64 bytes.
abbrev pub IsProper : {W V : Type 0} → Call W V → Type 0
IsProper (put_call address request w) =
    IsId request.chunk_id × (request.expected_size + k_header_size < u64)
IsProper (get_call request v) = IsId request.chunk_id
IsProper (head_call chunk_id) = IsId chunk_id
IsProper (delete_call chunk_id) = IsId chunk_id

module _ {W V : Type 0} (b : Blake3) (input : InputStream W) (output : OutputStream V) where
  -- A call and its reply as the promise has them, from the chunks `m` to the chunks `n`.
  pub data Obeys (m n : ChunkMap) : Call W V → Reply V → Type 0 where
    put_obeyed :
        {address : ℕ} {request : PutChunkRequest} {w : W} {st : Status}
        → PutObeys b input request w st m n
        → Obeys m n (put_call address request w) (put_reply st)
    get_obeyed :
        {request : GetChunkRequest} {v v' : V} {st : Status}
        → GetObeys b output request v st v' m
        → IsKept m n
        → Obeys m n (get_call request v) (get_reply st v')
    head_obeyed :
        {chunk_id : ChunkId} {r : StatusOr HeadChunkResponse}
        → HeadObeys b chunk_id r m
        → IsKept m n
        → Obeys m n (head_call chunk_id) (head_reply r)
    delete_obeyed :
        {chunk_id : ChunkId} {st : Status}
        → DeleteObeys chunk_id st m n
        → Obeys m n (delete_call chunk_id) (delete_reply st)

  -- Calls and replies, each as the promise has it, from the chunks `m` to the chunks `n`.
  pub data History : ChunkMap → ChunkMap → List (Call W V) → List (Reply V) → Type 0 where
    no_calls : {m : ChunkMap} → History m m [] []
    then_calls :
        {m n o : ChunkMap} {call : Call W V} {reply : Reply V} {calls : List (Call W V)}
        {replies : List (Reply V)}
        → Obeys m n call reply
        → History n o calls replies
        → History m o (call ∷ calls) (reply ∷ replies)
