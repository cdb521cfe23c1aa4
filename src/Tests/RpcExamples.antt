-- ===== src/Tests/RpcExamples.antt =====
-- The theorems on the RPC layer, applied to a call of three frames and the system in memory.
use distributed_cache_system.Prelude.{◌≡◌, refl, true, List, [], ◌∷◌, arith}
use distributed_cache_system.Status.{Status, k_timeout, is_ok}
use distributed_cache_system.Posix.{path_eq}
use distributed_cache_system.Worker.Streams.{Delivers, at_end, more}
use distributed_cache_system.Worker.FileChunkStore.Put.{put}
use distributed_cache_system.Worker.FileChunkStore.Get.{get}
use distributed_cache_system.Worker.FileChunkStore.Head.{head}
use distributed_cache_system.Worker.FileChunkStore.Delete.{delete}
use distributed_cache_system.Types.{validate_checksum, GetChunkRequest}
use distributed_cache_system.Rpc.Codes.{
  set_status, from_rpc_status, to_grpc_status, from_grpc_status,
}
use distributed_cache_system.Rpc.Codes.RoundTrip.{IsNormal, from_status-to_status}
use distributed_cache_system.Rpc.Streams.{
  PutChunkFrame, data_bytes, RpcInput, rpc_input, rpc_input_stream, rpc_read,
}
use distributed_cache_system.Rpc.Streams.Frames.{Carries, delivered-Carries}
use distributed_cache_system.Rpc.DataPlane.{
  file_chunk_store, put_chunk, get_chunk, head_chunk, delete_chunk, file_chunk_store_checked,
}
use distributed_cache_system.Wire.{frames_reader}
use distributed_cache_system.Tests.Memory.{memory}
use distributed_cache_system.Tests.Inputs.{toy_hash, pieces, kept, request, root}

abbrev late_reply : Status
late_reply = record { code = k_timeout; message = b'x' ∷ [] }

late_reply-IsNormal : IsNormal late_reply
late_reply-IsNormal = λ h. cc

from_status-to_status_example :
    (from_rpc_status (set_status late_reply) ≡ late_reply)
    × (from_grpc_status (to_grpc_status late_reply) ≡ late_reply)
from_status-to_status_example = from_status-to_status late_reply late_reply-IsNormal

-- The frames of a call.
abbrev frames : List PutChunkFrame
frames = data_bytes (1 ∷ 2 ∷ 3 ∷ []) ∷ data_bytes (4 ∷ []) ∷ []

abbrev used_up : RpcInput (List PutChunkFrame)
used_up = record { reader = []; data_ = 4 ∷ []; offset_ = 1 }

-- A buffer of two bytes gets 1 2, then 3, then 4.
delivered :
    Delivers (rpc_input_stream frames_reader) 2 (rpc_input frames) (1 ∷ 2 ∷ 3 ∷ 4 ∷ []) used_up
unfolding rpc_read
delivered = more (1 ∷ 2 ∷ []) (3 ∷ 4 ∷ []) refl (omega arith) refl (
    more (3 ∷ []) (4 ∷ []) refl (omega arith) refl
      (more (4 ∷ []) [] refl (omega arith) refl (at_end refl refl refl)))

delivered-Carries_example : Carries frames_reader frames (1 ∷ 2 ∷ 3 ∷ 4 ∷ [])
delivered-Carries_example =
    delivered-Carries frames_reader 2 frames used_up (1 ∷ 2 ∷ 3 ∷ 4 ∷ []) (omega arith) delivered

abbrev tail_range : GetChunkRequest
tail_range = record { chunk_id = request.chunk_id; range = record { offset = 1; size = 2 } }

request_checked : is_ok (validate_checksum request.expected_checksum) ≡ true
unfolding validate_checksum
request_checked = refl

file_chunk_store_checked_example :
    (put_chunk (file_chunk_store memory toy_hash root) pieces 7 request
      ≡ put memory toy_hash pieces request root 7)
    × (get_chunk (file_chunk_store memory toy_hash root) kept tail_range
        ≡ get memory kept root tail_range)
    × (head_chunk (file_chunk_store memory toy_hash root) request.chunk_id
        ≡ head memory root request.chunk_id)
    × (delete_chunk (file_chunk_store memory toy_hash root) request.chunk_id
        ≡ delete memory root request.chunk_id)
file_chunk_store_checked_example =
    file_chunk_store_checked memory toy_hash root pieces kept 7 request tail_range request.chunk_id
      request_checked
