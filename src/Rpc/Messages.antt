-- ===== src/Rpc/Messages.antt =====
-- The messages of proto/worker.proto that hold more than an id.
use distributed_cache_system.Prelude.{ℕ, List}
use distributed_cache_system.Rpc.Codes.{RpcStatus}

-- message GetChunkRequest
pub record GetMessage : Type 0 where
  pub chunk_id : List ℕ
  pub offset : ℕ
  pub size : ℕ

-- message HeadChunkResponse
pub record HeadMessage : Type 0 where
  pub status : RpcStatus
  pub chunk_id : List ℕ
  pub size : ℕ
  pub checksum : List ℕ
