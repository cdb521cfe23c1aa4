-- ===== src/Tests/Loopback.antt =====
-- A channel in memory: the worker's handlers run on the frames that the client has sent.
use distributed_cache_system.Prelude.{
  ℕ, ◌<◌, ◌≡◌, refl, ap, ◌∙◌, true, Option, none, some, List, [], ◌∷◌, ◌++◌, length, arith,
}
use distributed_cache_system.Rpc.Codes.{RpcStatus, GrpcStatus, grpc_other, is_grpc_ok}
use distributed_cache_system.Rpc.Messages.{GetMessage, HeadMessage}
use distributed_cache_system.Rpc.Streams.{PutChunkFrame}
use distributed_cache_system.Rpc.DataPlane.{ChunkStore, file_chunk_store}
use distributed_cache_system.Rpc.Service.{
  put_rpc, get_rpc, head_rpc, delete_rpc, unset_status, only_status,
}
use distributed_cache_system.Client.Stub.{WorkerStub, IsFinite}
use distributed_cache_system.Wire.{
  frames_reader, frames_writer, joined, HasRun, IsWired, HasSent, IsWiredGet, IsWiredUnary,
}
use distributed_cache_system.Client.Grpc.Receiving.{Received, no_frame, next_frame}
use mathlib.Core.Option.{some-injective}
use distributed_cache_system.Tests.Memory.{Memory, memory}
use distributed_cache_system.Tests.Inputs.{toy_hash, root}

-- The worker, the frames sent to it, and the data and the status that it has sent back.
pub record Channel : Type 0 where
  pub worker : Memory
  pub sent : List PutChunkFrame
  pub received : List (List ℕ)
  pub finished : GrpcStatus

abbrev pub store : ChunkStore Memory
store = file_chunk_store memory toy_hash root

-- The status of a call whose handler has not ended.
abbrev broken : GrpcStatus
broken = record { error_code = grpc_other 1; error_message = [] }

abbrev after_finish :
    Channel
    → Option ((GrpcStatus × RpcStatus) × (Memory × List PutChunkFrame))
    → (GrpcStatus × RpcStatus) × Channel
after_finish n none = ((broken, unset_status), n)
after_finish n (some (answer, (worker, unread))) =
    (answer, record n { worker = worker; sent = unread })

abbrev after_get : Channel → Option (GrpcStatus × (Memory × List (List ℕ))) → Channel
after_get n none = record n { received = []; finished = broken }
after_get n (some (st, (worker, frames))) = record n {
  worker = worker;
  received = frames;
  finished = st;
}

abbrev read_next : Channel → List (List ℕ) → Option (List ℕ) × Channel
read_next n [] = (none, n)
read_next n (frame ∷ frames) = (some frame, record n { received = frames })

abbrev after_head :
    Channel → Option ((GrpcStatus × HeadMessage) × Memory) → (GrpcStatus × HeadMessage) × Channel
after_head n none = ((broken, only_status unset_status), n)
after_head n (some (answer, worker)) = (answer, record n { worker = worker })

abbrev after_delete :
    Channel → Option ((GrpcStatus × RpcStatus) × Memory) → (GrpcStatus × RpcStatus) × Channel
after_delete n none = ((broken, unset_status), n)
after_delete n (some (answer, worker)) = (answer, record n { worker = worker })

abbrev pub loopback : WorkerStub Channel
loopback = record {
  start_put = λ to n. record n { sent = [] };
  write_frame = λ frame n. (true, record n { sent = n.sent ++ (frame ∷ []) });
  writes_done = λ n. n;
  finish_put = λ n. after_finish n (put_rpc frames_reader (some store) 9 (n.worker, n.sent));
  try_cancel = λ n. n;
  start_get =
      λ to request n. after_get n (get_rpc frames_writer (some store) request (n.worker, []));
  read_data = λ n. read_next n n.received;
  finish_get = λ n. (n.finished, n);
  call_head = λ to chunk_id n. after_head n (head_rpc (some store) chunk_id n.worker);
  call_delete = λ to chunk_id n. after_delete n (delete_rpc (some store) chunk_id n.worker);
  errno_left = λ n. 0;
  frames_left = λ n. length n.received;
}

read_next-finite :
    (n : Channel) (frames : List (List ℕ)) (bytes : List ℕ)
    → (read_next n frames).0 ≡ some bytes
    → length (read_next n frames).1.received < length frames
read_next-finite n [] bytes e = cc
read_next-finite n (frame ∷ frames) bytes e = omega arith

pub loopback-IsFinite : IsFinite loopback
loopback-IsFinite = λ n bytes e. read_next-finite n n.received bytes e

finish_put-HasRun :
    (n : Channel) (r : Option ((GrpcStatus × RpcStatus) × (Memory × List PutChunkFrame)))
    → put_rpc frames_reader (some store) 9 (n.worker, n.sent) ≡ r
    → is_grpc_ok (after_finish n r).0.0.error_code ≡ true
    → HasRun store n.worker n.sent (after_finish n r).0 (after_finish n r).1.worker
finish_put-HasRun n none e okay = cc
finish_put-HasRun n (some (answer, (worker, unread))) e okay = record {
  address = 9;
  unread = unread;
  ran = e;
}

pub loopback-IsWired : IsWired loopback store (λ n. n.worker) (λ n. n.sent)
loopback-IsWired = record {
  start_worker = λ to n. refl;
  start_sent = λ to n. refl;
  write_worker = λ frame n. refl;
  write_sent = λ frame n e. refl;
  write_refused = λ frame n e. cc;
  finish_runs = λ n okay. finish_put-HasRun n _ refl okay;
}

-- What is read from the channel is what it has received, and leaves the status alone.
read_next-end :
    (n : Channel) (frames : List (List ℕ))
    → (read_next n frames).0 ≡ none
    → (frames ≡ []) × ((read_next n frames).1.finished ≡ n.finished)
read_next-end n [] e = (refl, refl)
read_next-end n (frame ∷ frames) e = cc

read_next-more :
    (n : Channel) (frames : List (List ℕ)) (bytes : List ℕ)
    → (read_next n frames).0 ≡ some bytes
    → (frames ≡ bytes ∷ (read_next n frames).1.received)
      × ((read_next n frames).1.finished ≡ n.finished)
read_next-more n [] bytes e = cc
read_next-more n (frame ∷ frames) bytes e = (ap (λ x. x ∷ frames) (some-injective _ _ e), refl)

Received-joined :
    {n m : Channel} {contents : List ℕ}
    → Received loopback n contents m
    → (contents ≡ joined n.received) × (m.finished ≡ n.finished)
Received-joined (no_frame n e) =
    let (empty, same) = read_next-end n n.received e in (rw empty refl, same)
Received-joined (next_frame n bytes rest m e more) =
    let (head, same) = read_next-more n n.received bytes e in
    let (tail, same') = Received-joined more in (rw (head, tail) refl, same' ∙ same)

get_rpc-HasSent :
    (n m : Channel) (request : GetMessage) (contents : List ℕ)
    (r : Option (GrpcStatus × (Memory × List (List ℕ))))
    → get_rpc frames_writer (some store) request (n.worker, []) ≡ r
    → Received loopback (after_get n r) contents m
    → is_grpc_ok m.finished.error_code ≡ true
    → HasSent store n.worker request contents m.finished
get_rpc-HasSent n m request contents none e received fine =
    let (whole, same) = Received-joined received in cc (rw same at fine)
get_rpc-HasSent n m request contents (some (st, (worker, frames))) e received fine =
    let (whole, same) = Received-joined received in
    record { after = worker; frames = frames; ran = rw same e; whole = whole }

pub loopback-IsWiredGet : IsWiredGet loopback store (λ n. n.worker)
loopback-IsWiredGet = record {
  get_runs = λ to request n m contents received fine.
      get_rpc-HasSent n m request contents _ refl received fine;
}

head_rpc-runs :
    (n : Channel) (chunk_id : List ℕ) (r : Option ((GrpcStatus × HeadMessage) × Memory))
    → head_rpc (some store) chunk_id n.worker ≡ r
    → is_grpc_ok (after_head n r).0.0.error_code ≡ true
    → head_rpc (some store) chunk_id n.worker ≡ some ((after_head n r).0, (after_head n r).1.worker)
head_rpc-runs n chunk_id none e fine = cc
head_rpc-runs n chunk_id (some (answer, worker)) e fine = e

delete_rpc-runs :
    (n : Channel) (chunk_id : List ℕ) (r : Option ((GrpcStatus × RpcStatus) × Memory))
    → delete_rpc (some store) chunk_id n.worker ≡ r
    → is_grpc_ok (after_delete n r).0.0.error_code ≡ true
    → delete_rpc (some store) chunk_id n.worker
      ≡ some ((after_delete n r).0, (after_delete n r).1.worker)
delete_rpc-runs n chunk_id none e fine = cc
delete_rpc-runs n chunk_id (some (answer, worker)) e fine = e

pub loopback-IsWiredUnary : IsWiredUnary loopback store (λ n. n.worker)
loopback-IsWiredUnary = record {
  head_runs = λ to chunk_id n fine. head_rpc-runs n chunk_id _ refl fine;
  delete_runs = λ to chunk_id n fine. delete_rpc-runs n chunk_id _ refl fine;
}
