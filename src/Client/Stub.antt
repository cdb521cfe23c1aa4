-- ===== src/Client/Stub.antt =====
-- The gRPC client library and the code generated from proto/worker.proto, neither of which is in
-- the repository's sources: rpc::WorkerRpc::Stub, grpc::ClientWriter, grpc::ClientReader. The
-- context's deadline is part of the state `N`.
use distributed_cache_system.Prelude.{ℕ, ◌<◌, ◌≡◌, Bool, Option, some, List}
use distributed_cache_system.Rpc.Codes.{RpcStatus, GrpcStatus}
use distributed_cache_system.Rpc.Messages.{GetMessage, HeadMessage}
use distributed_cache_system.Rpc.Streams.{PutChunkFrame}

pub record WorkerStub (N : Type 0) : Type 0 where
  -- stub->PutChunk on a new channel to this address; Write, WritesDone and Finish of its writer
  pub start_put : List ℕ → N → N
  pub write_frame : PutChunkFrame → N → Bool × N
  pub writes_done : N → N
  pub finish_put : N → (GrpcStatus × RpcStatus) × N
  -- context.TryCancel()
  pub try_cancel : N → N
  -- stub->GetChunk; Read and Finish of its reader
  pub start_get : List ℕ → GetMessage → N → N
  pub read_data : N → Option (List ℕ) × N
  pub finish_get : N → GrpcStatus × N
  pub call_head : List ℕ → List ℕ → N → (GrpcStatus × HeadMessage) × N
  pub call_delete : List ℕ → List ℕ → N → (GrpcStatus × RpcStatus) × N
  -- The errno that the calls so far leave: their documentation does not say that they keep it.
  pub errno_left : N → ℕ
  -- A bound on the frames that Read can still return in a call; it is not in C++.
  pub frames_left : N → ℕ

-- A call has finitely many frames: the deadline ends it.
abbrev pub IsFinite : {N : Type 0} → WorkerStub N → Type 0
IsFinite {N} stub =
    (n : N) (bytes : List ℕ)
    → (stub.read_data n).0 ≡ some bytes
    → stub.frames_left (stub.read_data n).1 < stub.frames_left n
