-- ===== src/Rpc/Codes/RoundTrip.antt =====
-- A status reaches the client as the worker has sent it.
use distributed_cache_system.Prelude.{◌≡◌, refl, sym, ap, true, List, [], ℕ}
use distributed_cache_system.Status.{
  StatusCode, k_ok, k_invalid_argument, k_not_found, k_already_exists, k_unavailable, k_timeout,
  k_io_error, k_corruption, k_resource_exhausted, k_internal, Status, is_ok,
}
use distributed_cache_system.Rpc.Codes.{
  set_status, from_rpc_status, to_grpc_status, from_grpc_status,
}

-- An OK status has no message, as the constructors of Status see to.
abbrev pub IsNormal : Status → Type 0
IsNormal st = is_ok st ≡ true → st.message ≡ []

same_status :
    (code : StatusCode) (m : List ℕ)
    → IsNormal (record { code = code; message = m })
    → (from_rpc_status (set_status (record { code = code; message = m }))
        ≡ record { code = code; message = m })
      × (from_grpc_status (to_grpc_status (record { code = code; message = m }))
          ≡ record { code = code; message = m })
unfolding from_rpc_status set_status from_grpc_status to_grpc_status
same_status k_ok m h = (
  ap (λ x. record { code = k_ok; message = x }) (sym (h refl)),
  ap (λ x. record { code = k_ok; message = x }) (sym (h refl)),
)
same_status k_invalid_argument m h = (refl, refl)
same_status k_not_found m h = (refl, refl)
same_status k_already_exists m h = (refl, refl)
same_status k_unavailable m h = (refl, refl)
same_status k_timeout m h = (refl, refl)
same_status k_io_error m h = (refl, refl)
same_status k_corruption m h = (refl, refl)
same_status k_resource_exhausted m h = (refl, refl)
same_status k_internal m h = (refl, refl)

-- A status whose message is empty where it is OK reaches the client unchanged, both in the status
-- field of a response and as the gRPC status of a call.
pub from_status-to_status :
    (st : Status)
    → IsNormal st
    → (from_rpc_status (set_status st) ≡ st) × (from_grpc_status (to_grpc_status st) ≡ st)
from_status-to_status st h = same_status st.code st.message h
