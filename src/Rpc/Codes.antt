-- ===== src/Rpc/Codes.antt =====
-- The status codes on the wire: `ToRpcStatusCode`, `SetStatus` and `ToGrpcStatus` of the worker,
-- `FromRpcCode`, `FromRpcStatus` and `FromGrpcStatus` of the client.
pub mod RoundTrip
pub mod Errors
use distributed_cache_system.Prelude.{ℕ, List, [], Bool, true, false, if◌then◌else◌}
use distributed_cache_system.Status.{
  StatusCode, k_ok, k_invalid_argument, k_not_found, k_already_exists, k_unavailable, k_timeout,
  k_io_error, k_corruption, k_resource_exhausted, k_internal, Status, ok, status,
}

-- enum StatusCode of proto/common.proto. A proto3 enum is open: it may hold any other number.
pub data RpcCode : Type 0 where
  rpc_ok rpc_invalid_argument rpc_not_found rpc_already_exists rpc_unavailable : RpcCode
  rpc_timeout rpc_io_error rpc_corruption rpc_resource_exhausted rpc_internal : RpcCode
  rpc_other : ℕ → RpcCode

-- message Status of proto/common.proto
pub record RpcStatus : Type 0 where
  pub code : RpcCode
  pub message : List ℕ

-- The enumerators of grpc::StatusCode that the code names, and any other by its number.
pub data GrpcCode : Type 0 where
  grpc_ok grpc_invalid_argument grpc_not_found grpc_already_exists grpc_unavailable : GrpcCode
  grpc_deadline_exceeded grpc_resource_exhausted grpc_data_loss grpc_unknown : GrpcCode
  grpc_internal grpc_failed_precondition : GrpcCode
  grpc_other : ℕ → GrpcCode

-- grpc::Status: error_code() and error_message()
pub record GrpcStatus : Type 0 where
  pub error_code : GrpcCode
  pub error_message : List ℕ

-- grpc::Status::OK
abbrev pub grpc_status_ok : GrpcStatus
grpc_status_ok = record { error_code = grpc_ok; error_message = [] }

-- ToRpcStatusCode. What follows its switch is out of reach.
unfoldable pub to_rpc_status_code : StatusCode → RpcCode
to_rpc_status_code k_ok = rpc_ok
to_rpc_status_code k_invalid_argument = rpc_invalid_argument
to_rpc_status_code k_not_found = rpc_not_found
to_rpc_status_code k_already_exists = rpc_already_exists
to_rpc_status_code k_unavailable = rpc_unavailable
to_rpc_status_code k_timeout = rpc_timeout
to_rpc_status_code k_io_error = rpc_io_error
to_rpc_status_code k_corruption = rpc_corruption
to_rpc_status_code k_resource_exhausted = rpc_resource_exhausted
to_rpc_status_code k_internal = rpc_internal

-- SetStatus: the response's status
unfoldable pub set_status : Status → RpcStatus
unfolding to_rpc_status_code
set_status st = record { code = to_rpc_status_code st.code; message = st.message }

abbrev pub grpc_status : GrpcCode → List ℕ → GrpcStatus
grpc_status code message = record { error_code = code; error_message = message }

abbrev pub to_grpc_as : StatusCode → List ℕ → GrpcStatus
to_grpc_as k_ok message = grpc_status_ok
to_grpc_as k_invalid_argument message = grpc_status grpc_invalid_argument message
to_grpc_as k_not_found message = grpc_status grpc_not_found message
to_grpc_as k_already_exists message = grpc_status grpc_already_exists message
to_grpc_as k_unavailable message = grpc_status grpc_unavailable message
to_grpc_as k_timeout message = grpc_status grpc_deadline_exceeded message
to_grpc_as k_resource_exhausted message = grpc_status grpc_resource_exhausted message
to_grpc_as k_corruption message = grpc_status grpc_data_loss message
to_grpc_as k_io_error message = grpc_status grpc_unknown message
to_grpc_as k_internal message = grpc_status grpc_internal message

-- ToGrpcStatus
unfoldable pub to_grpc_status : Status → GrpcStatus
to_grpc_status st = to_grpc_as st.code st.message

-- FromRpcCode
unfoldable pub from_rpc_code : RpcCode → StatusCode
from_rpc_code rpc_ok = k_ok
from_rpc_code rpc_invalid_argument = k_invalid_argument
from_rpc_code rpc_not_found = k_not_found
from_rpc_code rpc_already_exists = k_already_exists
from_rpc_code rpc_unavailable = k_unavailable
from_rpc_code rpc_timeout = k_timeout
from_rpc_code rpc_io_error = k_io_error
from_rpc_code rpc_corruption = k_corruption
from_rpc_code rpc_resource_exhausted = k_resource_exhausted
from_rpc_code _ = k_internal

abbrev pub is_rpc_ok : RpcCode → Bool
is_rpc_ok rpc_ok = true
is_rpc_ok _ = false

-- FromRpcStatus
unfoldable pub from_rpc_status : RpcStatus → Status
unfolding from_rpc_code status
from_rpc_status st = if is_rpc_ok st.code then ok else status (from_rpc_code st.code) st.message

-- The switch of FromGrpcStatus
unfoldable pub from_grpc_code : GrpcCode → StatusCode
from_grpc_code grpc_invalid_argument = k_invalid_argument
from_grpc_code grpc_not_found = k_not_found
from_grpc_code grpc_already_exists = k_already_exists
from_grpc_code grpc_deadline_exceeded = k_timeout
from_grpc_code grpc_resource_exhausted = k_resource_exhausted
from_grpc_code grpc_data_loss = k_corruption
from_grpc_code grpc_unknown = k_io_error
from_grpc_code grpc_internal = k_internal
from_grpc_code _ = k_unavailable

-- grpc::Status::ok()
abbrev pub is_grpc_ok : GrpcCode → Bool
is_grpc_ok grpc_ok = true
is_grpc_ok _ = false

-- FromGrpcStatus
unfoldable pub from_grpc_status : GrpcStatus → Status
unfolding from_grpc_code status
from_grpc_status st =
    if is_grpc_ok st.error_code then ok else status (from_grpc_code st.error_code) st.error_message
