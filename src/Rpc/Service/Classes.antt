-- ===== src/Rpc/Service/Classes.antt =====
-- The classes of include/storage/rpc/services.h, by what a gRPC server calls of them.
use distributed_cache_system.Prelude.{ℕ, Option, some, List}
use distributed_cache_system.Prelude.Action.{Action}
use distributed_cache_system.Rpc.Codes.{RpcStatus, GrpcStatus}
use distributed_cache_system.Rpc.Messages.{GetMessage, HeadMessage}
use distributed_cache_system.Rpc.Streams.{Reader, Writer}
use distributed_cache_system.Rpc.DataPlane.{ChunkStore}
use distributed_cache_system.Rpc.Service.{
  HealthMessage, control_health, worker_health, put_rpc, get_rpc, head_rpc, delete_rpc,
}

-- class ControlPlaneService
pub record ControlPlaneService : Type 0 where
  pub health : GrpcStatus × HealthMessage

abbrev pub control_plane_service : ControlPlaneService
control_plane_service = record { health = control_health }

-- class WorkerService. The number is the address of the stream that PutChunk makes.
pub record WorkerService (S : Type 0) : Type 1 where
  pub health : GrpcStatus × HealthMessage
  pub put_chunk : {R : Type 0} → Reader R → ℕ → Action (S × R) (GrpcStatus × RpcStatus)
  pub get_chunk : {V : Type 0} → Writer V → GetMessage → Action (S × V) GrpcStatus
  pub head_chunk : List ℕ → Action S (GrpcStatus × HeadMessage)
  pub delete_chunk : List ℕ → Action S (GrpcStatus × RpcStatus)

-- A WorkerService with this `data_plane_`; `none` is the null pointer. A DataPlaneService is the
-- ChunkStore that it refers to.
abbrev with_data_plane : {S : Type 0} → Option (ChunkStore S) → WorkerService S
with_data_plane data_plane = record {
  health = worker_health;
  put_chunk = λ reader address. put_rpc reader data_plane address;
  get_chunk = λ writer request. get_rpc writer data_plane request;
  head_chunk = head_rpc data_plane;
  delete_chunk = delete_rpc data_plane;
}

-- WorkerService(DataPlaneService &)
abbrev pub worker_service : {S : Type 0} → ChunkStore S → WorkerService S
worker_service store = with_data_plane (some store)
