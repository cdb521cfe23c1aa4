-- ===== src/Rpc/Service.antt =====
-- ControlPlaneService and WorkerService of include/storage/rpc/services.h and src/rpc/services.cpp.
-- A handler returns its grpc::Status and the response that it has filled in.
pub mod Upload
pub mod Answers
pub mod Classes
use distributed_cache_system.Prelude.{
  ℕ, Bool, true, false, Option, none, some, List, [], if◌then◌else◌, text, String,
}
use distributed_cache_system.Prelude.Action.{Action, pure, ◌>>=◌, on_second}
use distributed_cache_system.Status.{Status, ok, StatusOr}
use distributed_cache_system.Types.{
  ChunkId, k_blake3, PutChunkRequest, GetChunkRequest, HeadChunkResponse,
}
use distributed_cache_system.Rpc.Codes.{
  RpcStatus, rpc_ok, GrpcStatus, grpc_status, grpc_status_ok, grpc_failed_precondition,
  grpc_invalid_argument, set_status, to_grpc_status,
}
use distributed_cache_system.Rpc.Messages.{GetMessage, HeadMessage}
use distributed_cache_system.Rpc.Streams.{
  PutChunkMetadata, PutChunkFrame, metadata, Reader, Writer, RpcInput, rpc_input, rpc_input_stream,
  rpc_output_stream,
}
use distributed_cache_system.Rpc.DataPlane.{
  ChunkStore, put_chunk, get_chunk, head_chunk, delete_chunk,
}

-- message HealthResponse
pub record HealthMessage : Type 0 where
  pub status : RpcStatus
  pub service : List ℕ

-- The status of a response that nothing has set.
abbrev pub unset_status : RpcStatus
unset_status = record { code = rpc_ok; message = [] }

-- A HeadChunkResponse with this status and nothing else set.
abbrev pub only_status : RpcStatus → HeadMessage
only_status st = record { status = st; chunk_id = []; size = 0; checksum = [] }

-- SetHealthy
unfoldable pub set_healthy : List ℕ → HealthMessage
set_healthy service = record {
  status = record { code = rpc_ok; message = text "ok" };
  service = service;
}

-- ControlPlaneService::Health
unfoldable pub control_health : GrpcStatus × HealthMessage
unfolding set_healthy
control_health = (grpc_status_ok, set_healthy (text "control-plane"))

-- WorkerService::Health
unfoldable pub worker_health : GrpcStatus × HealthMessage
unfolding set_healthy
worker_health = (grpc_status_ok, set_healthy (text "worker"))

-- The return on a null `data_plane_`.
unfoldable pub not_configured : GrpcStatus
not_configured = grpc_status grpc_failed_precondition (text "data plane is not configured")

-- The PutChunkRequest of a first frame's metadata.
unfoldable pub request_of : PutChunkMetadata → PutChunkRequest
request_of m = record {
  chunk_id = record { value = m.chunk_id };
  expected_size = m.expected_size;
  expected_checksum = record { algorithm = k_blake3; value = m.expected_checksum };
}

-- HeadChunk's response.
unfoldable pub head_message : Status → Option HeadChunkResponse → HeadMessage
head_message failure none = only_status (set_status failure)
head_message failure (some head) = record {
  status = set_status ok;
  chunk_id = head.chunk_id.value;
  size = head.size;
  checksum = head.checksum.value;
}

module _ {S R : Type 0} (reader : Reader R) where
  -- An action on an RpcInputStream that starts here leaves the reader where the stream has left it.
  abbrev reader_left : {A : Type 0} → Option (A × (S × RpcInput R)) → Option (A × (S × R))
  reader_left none = none
  reader_left (some (a, (s, input))) = some (a, (s, input.reader))

  abbrev pub on_stream : {A : Type 0} → Action (S × RpcInput R) A → Action (S × R) A
  on_stream m (s, r) = reader_left (m (s, rpc_input r))

  -- WorkerService::PutChunk with the first frame. The number is the address of the stream.
  unfoldable pub put_first :
      ChunkStore S → ℕ → Option PutChunkFrame → Action (S × R) (GrpcStatus × RpcStatus)
  put_first store address (some (metadata m)) = do
    st ← on_stream (put_chunk store (rpc_input_stream reader) address (request_of m))
    pure (grpc_status_ok, set_status st)
  put_first store address _ = pure (
    grpc_status grpc_invalid_argument (text "first put frame must contain metadata"),
    unset_status,
  )

  -- WorkerService::PutChunk. `none` is a null `data_plane_`.
  unfoldable pub put_rpc : Option (ChunkStore S) → ℕ → Action (S × R) (GrpcStatus × RpcStatus)
  unfolding put_first
  put_rpc none address = pure (not_configured, unset_status)
  put_rpc (some store) address = do first ← on_second reader.read; put_first store address first

module _ {S : Type 0} where
  -- WorkerService::GetChunk
  unfoldable pub get_rpc :
      {V : Type 0} → Writer V → Option (ChunkStore S) → GetMessage → Action (S × V) GrpcStatus
  get_rpc writer none request = pure not_configured
  get_rpc writer (some store) request = do
    st ← get_chunk store (rpc_output_stream writer) (record {
      chunk_id = record { value = request.chunk_id };
      range = record { offset = request.offset; size = request.size };
    })
    pure (to_grpc_status st)

  -- WorkerService::HeadChunk
  unfoldable pub head_rpc : Option (ChunkStore S) → List ℕ → Action S (GrpcStatus × HeadMessage)
  head_rpc none chunk_id = pure (not_configured, only_status unset_status)
  head_rpc (some store) chunk_id = do
    result ← head_chunk store (record { value = chunk_id })
    pure (grpc_status_ok, head_message result.held_status result.held_value)

  -- WorkerService::DeleteChunk
  unfoldable pub delete_rpc : Option (ChunkStore S) → List ℕ → Action S (GrpcStatus × RpcStatus)
  delete_rpc none chunk_id = pure (not_configured, unset_status)
  delete_rpc (some store) chunk_id = do
    st ← delete_chunk store (record { value = chunk_id })
    pure (grpc_status_ok, set_status st)
