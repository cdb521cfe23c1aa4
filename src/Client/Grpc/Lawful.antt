-- ===== src/Client/Grpc/Lawful.antt =====
-- GrpcDataPlaneClient keeps what StorageClient relies on.
use distributed_cache_system.Prelude.{◌≡◌, refl, sym, inl, inr, Bool-cases, false, none}
use distributed_cache_system.Prelude.Action.{Ensures-some, Ensures_mono}
use distributed_cache_system.Status.{is_ok, from_status, from_value}
use distributed_cache_system.Status.Laws.{normalize_error_bad}
use distributed_cache_system.Posix.{Posix}
use distributed_cache_system.Posix.Documented.{IsDocumented}
use distributed_cache_system.Rpc.Codes.{GrpcStatus, is_grpc_ok, from_grpc_status, from_rpc_status}
use distributed_cache_system.Rpc.Messages.{HeadMessage}
use distributed_cache_system.Client.Reads.Laws.{not_none}
use distributed_cache_system.Client.Stub.{WorkerStub, IsFinite}
use distributed_cache_system.Client.DataPlane.{IsDataPlaneClient}
use distributed_cache_system.Client.Grpc.{head_result, target, grpc_head, grpc_delete, grpc_client}
use distributed_cache_system.Client.Grpc.Download.{grpc_get-Ensures}
use distributed_cache_system.Client.Grpc.Upload.{grpc_put-Ensures}

-- An error is never taken for an OK.
head_result-error :
    (answer : GrpcStatus × HeadMessage)
    → (head_result answer).held_value ≡ none
    → is_ok (head_result answer).held_status ≡ false
unfolding head_result from_status from_value
head_result-error (grpc, response) h = elim (Bool-cases (is_grpc_ok grpc.error_code)) [
  | inr broken ↦ rw broken (normalize_error_bad (from_grpc_status grpc))
  | inl fine ↦ elim (Bool-cases (is_ok (from_rpc_status response.status))) [
    | inr bad ↦ rw (fine, bad) (normalize_error_bad (from_rpc_status response.status))
    | inl good ↦ absurd (not_none (sym (rw (fine, good) at h)))
  ]
]

-- With an operating system that behaves as documented and calls of finitely many frames,
-- GrpcDataPlaneClient is a DataPlaneClient as StorageClient relies on it: its calls end, only
-- GetChunk changes the client's files, and there only the destination, which it makes new.
pub grpc_client-IsDataPlaneClient :
    (os : Posix) {N : Type 0} (stub : WorkerStub N)
    → IsDocumented os
    → IsFinite stub
    → IsDataPlaneClient os (grpc_client os stub)
unfolding grpc_head grpc_delete
grpc_client-IsDataPlaneClient os stub laws finite = record {
  put_chunk-Ensures = λ to request source s n.
      Ensures_mono (grpc_put-Ensures os laws stub to request source s n) λ st t e. e.0;
  get_chunk-Ensures = λ to request path s n.
      Ensures_mono (grpc_get-Ensures os laws stub finite to request path s n) λ st t e. e.0;
  head_chunk-Ensures = λ to chunk_id s n.
      Ensures-some (head_result-error (stub.call_head (target os to) chunk_id.value n).0, refl);
  delete_chunk-Ensures = λ to chunk_id s n. Ensures-some refl;
}
