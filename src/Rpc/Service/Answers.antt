-- ===== src/Rpc/Service/Answers.antt =====
-- What the client reads from the answers of WorkerService.
use distributed_cache_system.Prelude.{◌≡◌, refl, true, false, none, some, List, ℕ}
use distributed_cache_system.Prelude.Action.{Ensures, Ensures-some}
use distributed_cache_system.Status.{Status, ok, is_ok, StatusOr, from_status, from_value}
use distributed_cache_system.Status.Laws.{IsMade, of_value, of_error, normalize_error_kept}
use distributed_cache_system.Types.{ChecksumAlgorithm, k_blake3, HeadChunkResponse, GetChunkRequest}
use distributed_cache_system.Rpc.Codes.{
  grpc_status_ok, set_status, from_rpc_status, from_grpc_status,
}
use distributed_cache_system.Rpc.Codes.RoundTrip.{IsNormal, from_status-to_status}
use distributed_cache_system.Rpc.Messages.{GetMessage}
use distributed_cache_system.Rpc.Streams.{Writer, rpc_output_stream}
use distributed_cache_system.Rpc.DataPlane.{ChunkStore, get_chunk, head_chunk, delete_chunk}
use distributed_cache_system.Rpc.Service.{head_message, get_rpc, head_rpc, delete_rpc}
use distributed_cache_system.Client.Grpc.{call_status, head_result}

-- The GetChunkRequest of a message.
abbrev pub get_request : GetMessage → GetChunkRequest
get_request m = record {
  chunk_id = record { value = m.chunk_id };
  range = record { offset = m.offset; size = m.size };
}

error-IsNormal : (st : Status) → is_ok st ≡ false → IsNormal st
error-IsNormal st bad okay = cc

error_kept : (st : Status) → is_ok st ≡ false → from_rpc_status (set_status st) ≡ st
error_kept st bad = (from_status-to_status st (error-IsNormal st bad)).0

pub head_result-none :
    (st : Status)
    → is_ok st ≡ false
    → head_result (grpc_status_ok, head_message st none)
      ≡ record { held_status = st; held_value = none }
unfolding head_result head_message from_status
head_result-none st bad = rw (error_kept st bad, bad, normalize_error_kept st bad) refl

same_algorithm : (a : ChecksumAlgorithm) → k_blake3 ≡ a
same_algorithm k_blake3 = refl

pub head_result-value :
    (st : Status) (head : HeadChunkResponse)
    → is_ok st ≡ true
    → head_result (grpc_status_ok, head_message st (some head)) ≡ from_value head
unfolding head_result head_message from_rpc_status set_status from_value
head_result-value st head fine = λ i. record {
  held_status = ok;
  held_value = some (record {
    chunk_id = head.chunk_id;
    size = head.size;
    checksum = record {
      algorithm = same_algorithm head.checksum.algorithm i;
      value = head.checksum.value;
    };
  });
}

head_result-head_message :
    (r : StatusOr HeadChunkResponse)
    → IsMade r
    → head_result (grpc_status_ok, head_message r.held_status r.held_value) ≡ r
unfolding from_value from_status
head_result-head_message r (of_value v e) = rw e (head_result-value ok v refl)
head_result-head_message r (of_error st bad e) =
    rw (e, normalize_error_kept st bad) (head_result-none st bad)

-- Over gRPC, the client reads from the answers of WorkerService just what DataPlaneService has
-- returned, and the worker's state is as DataPlaneService has left it: the result of HeadChunk
-- where the constructors of StatusOr have made it, and the statuses of DeleteChunk and of
-- GetChunk where their message is empty if they are OK.
pub answers-results :
    {S V : Type 0} (store : ChunkStore S) (writer : Writer V) (s : S) (v : V) (chunk_id : List ℕ)
    (request : GetMessage) (r : StatusOr HeadChunkResponse) (deleted sent : Status) (t t' : S)
    (u : S × V)
    → head_chunk store (record { value = chunk_id }) s ≡ some (r, t)
    → IsMade r
    → delete_chunk store (record { value = chunk_id }) s ≡ some (deleted, t')
    → IsNormal deleted
    → get_chunk store (rpc_output_stream writer) (get_request request) (s, v) ≡ some (sent, u)
    → IsNormal sent
    → Ensures (head_rpc (some store) chunk_id s) (λ answer x. (head_result answer ≡ r) × (x ≡ t))
      × Ensures
          (delete_rpc (some store) chunk_id s)
          (λ answer x. (call_status answer ≡ deleted) × (x ≡ t'))
      × Ensures
          (get_rpc writer (some store) request (s, v))
          (λ answer x. (from_grpc_status answer ≡ sent) × (x ≡ u))
unfolding head_rpc delete_rpc get_rpc call_status
answers-results store writer s v chunk_id request r deleted sent t t' u e made e' normal e''
      normal' =
    (
      rw e (Ensures-some (head_result-head_message r made, refl)),
      rw e' (Ensures-some ((from_status-to_status deleted normal).0, refl)),
      rw e'' (Ensures-some ((from_status-to_status sent normal').1, refl)),
    )
