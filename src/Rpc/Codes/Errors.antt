-- ===== src/Rpc/Codes/Errors.antt =====
-- Errors stay errors on their way to the client.
use distributed_cache_system.Prelude.{◌≡◌, refl, ℕ, List, inl, inr, Bool-cases, true, false}
use distributed_cache_system.Status.{
  StatusCode, k_ok, k_invalid_argument, k_not_found, k_already_exists, k_unavailable, k_timeout,
  k_io_error, k_corruption, k_resource_exhausted, k_internal, Status, is_ok, is_k_ok, status,
}
use distributed_cache_system.Rpc.Codes.{
  to_grpc_as, to_grpc_status, GrpcCode, grpc_ok, grpc_invalid_argument, grpc_not_found,
  grpc_already_exists, grpc_unavailable, grpc_deadline_exceeded, grpc_resource_exhausted,
  grpc_data_loss, grpc_unknown, grpc_internal, grpc_failed_precondition, grpc_other, GrpcStatus,
  is_grpc_ok, from_grpc_code, from_grpc_status, to_rpc_status_code, from_rpc_status,
}

from_grpc_code-error : (c : GrpcCode) → is_k_ok (from_grpc_code c) ≡ false
unfolding from_grpc_code
from_grpc_code-error grpc_ok = refl
from_grpc_code-error grpc_invalid_argument = refl
from_grpc_code-error grpc_not_found = refl
from_grpc_code-error grpc_already_exists = refl
from_grpc_code-error grpc_unavailable = refl
from_grpc_code-error grpc_deadline_exceeded = refl
from_grpc_code-error grpc_resource_exhausted = refl
from_grpc_code-error grpc_data_loss = refl
from_grpc_code-error grpc_unknown = refl
from_grpc_code-error grpc_internal = refl
from_grpc_code-error grpc_failed_precondition = refl
from_grpc_code-error (grpc_other n) = refl

pub from_grpc_status-error :
    (st : GrpcStatus) → is_grpc_ok st.error_code ≡ false → is_ok (from_grpc_status st) ≡ false
unfolding from_grpc_status status
from_grpc_status-error st h = rw h (from_grpc_code-error st.error_code)

pub from_grpc_status-ok :
    (st : GrpcStatus) → is_ok (from_grpc_status st) ≡ true → is_grpc_ok st.error_code ≡ true
from_grpc_status-ok st h = elim (Bool-cases (is_grpc_ok st.error_code)) [
  | inl fine ↦ fine
  | inr broken ↦ absurd (cc (h, from_grpc_status-error st broken))
]

-- An error of the worker stays an error on the way through a response.
pub from_rpc_status-error :
    (c : StatusCode) (m : List ℕ)
    → is_k_ok c ≡ false
    → is_ok (from_rpc_status (record { code = to_rpc_status_code c; message = m })) ≡ false
unfolding to_rpc_status_code from_rpc_status
from_rpc_status-error k_ok m h = cc
from_rpc_status-error k_invalid_argument m h = refl
from_rpc_status-error k_not_found m h = refl
from_rpc_status-error k_already_exists m h = refl
from_rpc_status-error k_unavailable m h = refl
from_rpc_status-error k_timeout m h = refl
from_rpc_status-error k_io_error m h = refl
from_rpc_status-error k_corruption m h = refl
from_rpc_status-error k_resource_exhausted m h = refl
from_rpc_status-error k_internal m h = refl

-- Only OK goes out as the OK of a call.
to_grpc_as-ok :
    (c : StatusCode) (m : List ℕ) → is_grpc_ok (to_grpc_as c m).error_code ≡ true → is_k_ok c ≡ true
to_grpc_as-ok k_ok m h = refl
to_grpc_as-ok k_invalid_argument m h = cc
to_grpc_as-ok k_not_found m h = cc
to_grpc_as-ok k_already_exists m h = cc
to_grpc_as-ok k_unavailable m h = cc
to_grpc_as-ok k_timeout m h = cc
to_grpc_as-ok k_io_error m h = cc
to_grpc_as-ok k_corruption m h = cc
to_grpc_as-ok k_resource_exhausted m h = cc
to_grpc_as-ok k_internal m h = cc

pub to_grpc_status-ok :
    (st : Status) → is_grpc_ok (to_grpc_status st).error_code ≡ true → is_ok st ≡ true
unfolding to_grpc_status
to_grpc_status-ok st h = to_grpc_as-ok st.code st.message h
