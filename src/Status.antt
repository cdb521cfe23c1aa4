-- ===== src/Status.antt =====
-- include/storage/common/status.h, src/common/status.cpp and include/storage/common/status_or.h.
pub mod Laws
use distributed_cache_system.Prelude.{
  ℕ, List, [], Bool, true, false, Option, none, some, text, if◌then◌else◌,
}
use distributed_cache_system.Prelude.Action.{Action, pure}

-- enum class StatusCode
pub data StatusCode : Type 0 where
  k_ok k_invalid_argument k_not_found k_already_exists k_unavailable : StatusCode
  k_timeout k_io_error k_corruption k_resource_exhausted k_internal : StatusCode

-- `code_ == StatusCode::kOk`
abbrev pub is_k_ok : StatusCode → Bool
is_k_ok k_ok = true
is_k_ok _ = false

-- class Status; a message is its bytes.
pub record Status : Type 0 where
  pub code : StatusCode
  pub message : List ℕ

-- Status::Status(), Status::Ok()
abbrev pub ok : Status
ok = record { code = k_ok; message = [] }

-- Status::Status(StatusCode, std::string)
unfoldable pub status : StatusCode → List ℕ → Status
status code message = record { code = code; message = if is_k_ok code then [] else message }

-- Status::ok()
abbrev pub is_ok : Status → Bool
is_ok s = is_k_ok s.code

-- template StatusOr<T>: `status_` and the optional `value_`.
pub record StatusOr (T : Type 0) : Type 0 where
  pub held_status : Status
  pub held_value : Option T

-- StatusOr::NormalizeError
unfoldable pub normalize_error : Status → Status
normalize_error s =
    if is_ok s
    then status k_internal (text "StatusOr cannot be constructed from an OK status")
    else s

module _ {T : Type 0} where
  -- StatusOr(const Status &), StatusOr(Status &&)
  unfoldable pub from_status : Status → StatusOr T
  from_status s = record { held_status = normalize_error s; held_value = none }

  -- StatusOr(U &&value)
  unfoldable pub from_value : T → StatusOr T
  from_value v = record { held_status = ok; held_value = some v }

  -- StatusOr::ok()
  unfoldable pub has_value : StatusOr T → Bool
  has_value r = elim r.held_value [ none ↦ false | some v ↦ true ]

module _ {S : Type 0} where
  -- `if (auto status = ...; !status.ok()) { return status; }` before the rest of a function.
  abbrev pub unless_failed : Status → Action S Status → Action S Status
  unless_failed s rest = if is_ok s then rest else pure s
