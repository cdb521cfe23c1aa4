-- ===== src/Wire.antt =====
-- A client and a worker at the two ends of a gRPC channel. gRPC is not in the repository's sources:
-- `IsWired`, `IsWiredGet` and `IsWiredUnary` are what its documentation promises of a
-- client-streaming, of a server-streaming and of a unary call, where no other call reaches the
-- worker meanwhile.
pub mod Put
pub mod Get
pub mod Head
pub mod RoundTrip
pub mod Objects
use distributed_cache_system.Prelude.{
  ℕ, ◌≡◌, Bool, true, false, Option, none, some, List, [], ◌∷◌, ◌++◌,
}
use distributed_cache_system.Rpc.Codes.{RpcStatus, GrpcStatus, is_grpc_ok}
use distributed_cache_system.Rpc.Messages.{GetMessage}
use distributed_cache_system.Rpc.Streams.{PutChunkFrame, Reader, Writer}
use distributed_cache_system.Rpc.DataPlane.{ChunkStore}
use distributed_cache_system.Rpc.Service.{put_rpc, get_rpc, head_rpc, delete_rpc}
use distributed_cache_system.Client.Stub.{WorkerStub}
use distributed_cache_system.Client.Grpc.Receiving.{Received}

-- The frames of a call, in order, and then the end.
abbrev pub next_frame : List PutChunkFrame → Option PutChunkFrame × List PutChunkFrame
next_frame [] = (none, [])
next_frame (frame ∷ frames) = (some frame, frames)

abbrev pub frames_reader : Reader (List PutChunkFrame)
frames_reader = record { read = next_frame }

-- What the worker has done in a call that ends with an OK status on the wire: its handler has run
-- on the frames that were sent, and the response is the handler's.
pub record HasRun {S : Type 0} (store : ChunkStore S) (s : S) (frames : List PutChunkFrame)
    (answer : GrpcStatus × RpcStatus) (t : S) : Type 0 where
  pub address : ℕ
  pub unread : List PutChunkFrame
  pub ran : put_rpc frames_reader (some store) address (s, frames) ≡ some (answer, (t, unread))

module _ {N S : Type 0} (stub : WorkerStub N) (store : ChunkStore S) where
  open stub use {start_put, write_frame, writes_done, finish_put}

  -- `worker` is the state of the worker, `sent` the frames that the writer has taken in the call.
  pub record IsWired (worker : N → S) (sent : N → List PutChunkFrame) : Type 0 where
    pub start_worker : (to : List ℕ) (n : N) → worker (start_put to n) ≡ worker n
    pub start_sent : (to : List ℕ) (n : N) → sent (start_put to n) ≡ []
    pub write_worker : (frame : PutChunkFrame) (n : N) → worker (write_frame frame n).1 ≡ worker n
    pub write_sent :
        (frame : PutChunkFrame) (n : N)
        → (write_frame frame n).0 ≡ true
        → sent (write_frame frame n).1 ≡ sent n ++ (frame ∷ [])
    pub write_refused :
        (frame : PutChunkFrame) (n : N)
        → (write_frame frame n).0 ≡ false
        → sent (write_frame frame n).1 ≡ sent n
    pub finish_runs :
        (n : N)
        → is_grpc_ok (finish_put (writes_done n)).0.0.error_code ≡ true
        → HasRun store
            (worker n)
            (sent n)
            (finish_put (writes_done n)).0
            (worker (finish_put (writes_done n)).1)

-- The frames that a handler has written, in order.
abbrev pub frames_writer : Writer (List (List ℕ))
frames_writer = record { write = λ bytes frames. (true, frames ++ (bytes ∷ [])) }

-- The payloads of frames, one after the other.
abbrev pub joined : List (List ℕ) → List ℕ
joined [] = []
joined (piece ∷ pieces) = piece ++ joined pieces

-- What the worker has done in a call of GetChunk whose frames the client has read to their end.
pub record HasSent {S : Type 0} (store : ChunkStore S) (s : S) (request : GetMessage)
    (contents : List ℕ) (answer : GrpcStatus) : Type 0 where
  pub after : S
  pub frames : List (List ℕ)
  pub ran : get_rpc frames_writer (some store) request (s, []) ≡ some (answer, (after, frames))
  pub whole : contents ≡ joined frames

module _ {N S : Type 0} (stub : WorkerStub N) (store : ChunkStore S) where
  open stub use {start_get, finish_get}

  -- A call that ends with OK has had all the frames that the handler has written.
  pub record IsWiredGet (worker : N → S) : Type 0 where
    pub get_runs :
        (to : List ℕ) (request : GetMessage) (n m : N) (contents : List ℕ)
        → Received stub (start_get to request n) contents m
        → is_grpc_ok (finish_get m).0.error_code ≡ true
        → HasSent store (worker n) request contents (finish_get m).0

module _ {N S : Type 0} (stub : WorkerStub N) (store : ChunkStore S) where
  open stub use {call_head, call_delete}

  -- A call that ends with OK has run the handler and brings its response.
  pub record IsWiredUnary (worker : N → S) : Type 0 where
    pub head_runs :
        (to chunk_id : List ℕ) (n : N)
        → is_grpc_ok (call_head to chunk_id n).0.0.error_code ≡ true
        → head_rpc (some store) chunk_id (worker n)
          ≡ some ((call_head to chunk_id n).0, worker (call_head to chunk_id n).1)
    pub delete_runs :
        (to chunk_id : List ℕ) (n : N)
        → is_grpc_ok (call_delete to chunk_id n).0.0.error_code ≡ true
        → delete_rpc (some store) chunk_id (worker n)
          ≡ some ((call_delete to chunk_id n).0, worker (call_delete to chunk_id n).1)
