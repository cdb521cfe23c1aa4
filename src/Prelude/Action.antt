-- ===== src/Prelude/Action.antt =====
-- Stateful code: a function from a state to a result and the next state. `none` is no outcome of
-- the program: a loop's fuel ran out. `Ensures` is total correctness, so it rules `none` out.
use mathlib.Core.Path.{◌≡◌, refl, sym, ◌∙◌, subst}
use mathlib.Core.Bool.{Bool, true, false}
use mathlib.Core.Option.{Option, none, some, some-injective}
use distributed_cache_system.Prelude.Tests.{if◌then◌else◌}

abbrev pub Action : Type 0 → Type 0 → Type 0
Action S A = S → Option (A × S)

module _ {S A : Type 0} where
  abbrev pub pure : A → Action S A
  pure a s = some (a, s)

  -- A call that always answers.
  abbrev pub call : (S → A × S) → Action S A
  call f s = some (f s)

  -- A value read from the state.
  abbrev pub gets : (S → A) → Action S A
  gets f s = some (f s, s)

-- The action ends, with a result and a state that satisfy `Q`.
pub record Ensures {S A : Type 0} (r : Option (A × S)) (Q : A → S → Type 0) : Type 0 where
  pub value : A
  pub state : S
  pub returned : r ≡ some (value, state)
  pub holds : Q value state

module _ {S A : Type 0} where
  pub Ensures-some : {a : A} {s : S} {Q : A → S → Type 0} → Q a s → Ensures (some (a, s)) Q
  Ensures-some {a} {s} h = record { value = a; state = s; returned = refl; holds = h }

  pub Ensures_mono :
      {r : Option (A × S)} {P Q : A → S → Type 0}
      → Ensures r P
      → ((a : A) (s : S) → P a s → Q a s)
      → Ensures r Q
  Ensures_mono h f = record {
    value = h.value;
    state = h.state;
    returned = h.returned;
    holds = f h.value h.state h.holds;
  }

  -- The outcome itself, for later use.
  pub Ensures_returned :
      {r : Option (A × S)} {Q : A → S → Type 0}
      → Ensures r Q
      → Ensures r (λ a s. Q a s × (r ≡ some (a, s)))
  Ensures_returned h = record {
    value = h.value;
    state = h.state;
    returned = h.returned;
    holds = (h.holds, h.returned);
  }

  -- What holds of an outcome that is known.
  pub Ensures-of :
      {r : Option (A × S)} {Q : A → S → Type 0} {a : A} {s : S}
      → Ensures r Q
      → r ≡ some (a, s)
      → Q a s
  Ensures-of {Q} {a} {s} h e =
      let p : some (h.value, h.state) ≡ some (a, s) = sym h.returned ∙ e in
      let q : ◌≡◌ {A = A × S} (h.value, h.state) (a, s) = some-injective _ _ p in
      subst {A = A × S} (λ x. Q x.0 x.1) q h.holds

  pub Ensures-if :
      (b : Bool) (m n : Action S A) (s : S) {Q : A → S → Type 0}
      → (b ≡ true → Ensures (m s) Q)
      → (b ≡ false → Ensures (n s) Q)
      → Ensures ((if b then m else n) s) Q
  Ensures-if true m n s f g = f refl
  Ensures-if false m n s f g = g refl

module _ {S A B : Type 0} where
  infixl 5 ◌>>=◌ ◌>>◌
  abbrev pub after : Option (A × S) → (A → Action S B) → Option (B × S)
  after none f = none
  after (some (a, s)) f = f a s

  abbrev pub ◌>>=◌ : Action S A → (A → Action S B) → Action S B
  ◌>>=◌ m f s = after (m s) f

  abbrev pub ◌>>◌ : Action S A → Action S B → Action S B
  m >> n = m >>= λ _. n

  pub Ensures-bind :
      {r : Option (A × S)} (f : A → Action S B) {P : A → S → Type 0} {Q : B → S → Type 0}
      → Ensures r P
      → ((a : A) (t : S) → P a t → Ensures (f a t) Q)
      → Ensures (after r f) Q
  Ensures-bind f h k = rw h.returned (k h.value h.state h.holds)

-- Calls on the second of two components of the state.
module _ {S W A : Type 0} where
  abbrev pub on_second : (W → A × W) → Action (S × W) A
  on_second f (s, w) = let (a, w') = f w in some (a, (s, w'))

module _ {S W : Type 0} where
  abbrev pub change_second : (W → W) → Action (S × W) (Unit {0})
  change_second f (s, w) = some (tt, (s, f w))

-- An action on the first of two components of the state.
module _ {S W A : Type 0} where
  abbrev with_rest : W → Option (A × S) → Option (A × (S × W))
  with_rest w none = none
  with_rest w (some (a, s)) = some (a, (s, w))

  abbrev pub on_first : Action S A → Action (S × W) A
  on_first m (s, w) = with_rest w (m s)

  pub Ensures-on_first :
      {r : Option (A × S)} (w : W) {P : A → S → Type 0}
      → Ensures r P
      → Ensures (with_rest w r) (λ a t. P a t.0 × (t.1 ≡ w))
  Ensures-on_first w h = rw h.returned (Ensures-some (h.holds, refl))

  -- A second component that is known.
  pub Ensures_at :
      {Q : A → S × W → Type 0} (m : Action (S × W) A) (t : S × W) (w : W)
      → t.1 ≡ w
      → Ensures (m (t.0, w)) Q
      → Ensures (m t) Q
  Ensures_at {Q} m t w e h = subst (λ v. Ensures (m (t.0, v)) Q) (sym e) h
