-- ===== src/Status/Laws.antt =====
-- What `Status` and `StatusOr` promise.
use distributed_cache_system.Prelude.{◌≡◌, refl, true, false, arith}
use distributed_cache_system.Status.{
  Status, status, is_ok, normalize_error, StatusOr, from_status, from_value, has_value,
}

-- ok() of a StatusOr and ok() of its status agree.
abbrev pub IsCoherent : {T : Type 0} → StatusOr T → Type 0
IsCoherent r = has_value r ≡ is_ok r.held_status

-- A StatusOr made from a value is OK. One made from a status is not, whatever the status, and it
-- keeps an error as it is.
pub StatusOr-constructors :
    {T : Type 0} (v : T) (s : Status)
    → IsCoherent (from_value v)
      × (has_value (from_value v) ≡ true)
      × IsCoherent (from_status {T = T} s)
      × (has_value (from_status {T = T} s) ≡ false)
      × (is_ok s ≡ false → (from_status {T = T} s).held_status ≡ s)
unfolding from_value from_status has_value normalize_error status
StatusOr-constructors v s = (refl, refl, ground arith, refl, λ bad. ground arith)

pub normalize_error_kept : (s : Status) → is_ok s ≡ false → normalize_error s ≡ s
unfolding normalize_error
normalize_error_kept s bad = ground arith

pub normalize_error_bad : (s : Status) → is_ok (normalize_error s) ≡ false
unfolding normalize_error status
normalize_error_bad s = ground arith

-- A StatusOr as its constructors make it.
pub data IsMade {T : Type 0} (r : StatusOr T) : Type 0 where
  of_value : (v : T) → r ≡ from_value v → IsMade r
  of_error : (st : Status) → is_ok st ≡ false → r ≡ from_status st → IsMade r
