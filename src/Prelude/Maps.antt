-- ===== src/Prelude/Maps.antt =====
-- Finite and infinite maps as functions, over keys with a Boolean equality.
use mathlib.Core.Path.{◌≡◌, refl, sym, ap, ◌∙◌, fun_ext}
use mathlib.Core.Logic.{◌↔◌, ◌≢◌, inl, inr}
use mathlib.Core.Bool.{Bool, true}
use native.Mathlib.Omega.{arith}
use distributed_cache_system.Prelude.Tests.{if◌then◌else◌, Bool-cases}

pub record Eq (K : Type 0) : Type 0 where
  pub beq : K → K → Bool
  pub beq_iff : (a b : K) → (beq a b ≡ true) ↔ (a ≡ b)

module _ {K V : Type 0} ⦃e : Eq K⦄ where
  unfoldable pub update : (K → V) → K → V → K → V
  update f k v j = if e.beq k j then v else f j

  pub update_self : (f : K → V) (k : K) (v : V) → update f k v k ≡ v
  unfolding update
  update_self f k v = rw ((e.beq_iff k k).1 refl)

  pub update_ne : (f : K → V) (k j : K) (v : V) → k ≢ j → update f k v j ≡ f j
  unfolding update
  update_ne f k j v h = elim (Bool-cases (e.beq k j)) [
    | inl same ↦ absurd (h ((e.beq_iff k j).0 same))
    | inr other ↦ rw other
  ]

  pub update-update : (f : K → V) (k : K) (v w : V) → update (update f k v) k w ≡ update f k w
  unfolding update
  update-update f k v w = fun_ext λ j. ground arith

  -- Writing back what is there changes nothing.
  pub update_same : (f : K → V) (k : K) (v : V) → f k ≡ v → update f k v ≡ f
  unfolding update
  update_same f k v h = fun_ext λ j. elim (Bool-cases (e.beq k j)) [
    | inl same ↦ rw same (sym h ∙ ap f ((e.beq_iff k j).0 same))
    | inr other ↦ rw other
  ]
