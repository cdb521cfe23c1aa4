-- ===== src/Client/Reads/Laws.antt =====
-- The repeated read ends, and does what one read does.
use distributed_cache_system.Prelude.{
  ℕ, zero, suc, ◌+◌, ◌≤◌, ◌<◌, ◌≡◌, refl, none, some, Option, List, ◌==◌, length, take, drop, arith,
}
use distributed_cache_system.Prelude.Action.{
  Action, Ensures, Ensures-some, Ensures-if, Ensures_mono,
}
use distributed_cache_system.Prelude.Maps.{update_same}
use distributed_cache_system.Posix.{ℤ, Fs, file, Posix, with_opened, int_eq}
use distributed_cache_system.Posix.Documented.{
  IsDocumented, IsOpenOn, SequentialOutcome, not_read, advanced,
}
use distributed_cache_system.Client.Reads.{read_round, read_loop, read_some}

pub same_position :
    (f : Fs) (fd : ℤ) (i p : ℕ) → IsOpenOn f fd i p → with_opened f fd (some (file i p)) ≡ f
same_position f fd i p h = rw (update_same f.opened fd (some (file i p)) h) refl

pub not_none : {A : Type 0} {a : A} → ◌≡◌ {A = Option A} none (some a) → ⊥
not_none e = cc

-- What read does on a descriptor of the file `i` at the position `p`.
pub data ReadOn (f : Fs) (fd : ℤ) (i p count : ℕ) (r : Option (List ℕ)) (g : Fs) : Type 0 where
  read_nothing : r ≡ none → g ≡ f → ReadOn f fd i p count r g
  read_on :
      (n : ℕ)
      → r ≡ some (take n (drop p (f.bytes i)))
      → n ≤ length (drop p (f.bytes i))
      → (n ≡ 0 → 0 < count → length (f.bytes i) ≤ p)
      → g ≡ with_opened f fd (some (file i (p + n)))
      → ReadOn f fd i p count r g

pub SequentialOutcome-ReadOn :
    (f : Fs) (fd : ℤ) (i p count : ℕ) (r : Option (List ℕ)) (g : Fs)
    → IsOpenOn f fd i p
    → SequentialOutcome f fd count r g
    → ReadOn f fd i p count r g
SequentialOutcome-ReadOn f fd i p count r g h (not_read e q) = read_nothing e q
SequentialOutcome-ReadOn f fd i p count r g h (advanced j q n o e le le' eof k) =
    let file_same : i ≡ j = cc in
    let position_same : p ≡ q = cc in rw (file_same, position_same) (read_on n e le' eof k)

module _ (os : Posix) (laws : IsDocumented os) (fd : ℤ) (count : ℕ) where
  open os use {State, fs, signals, errno, eintr, read}

  read_round-Ensures :
      (again : Action State (Option (List ℕ))) (s t : State) (r : Option (List ℕ))
      → SequentialOutcome (fs s) fd count r (fs t)
      → (r ≡ none
          → errno t ≡ eintr
          → Ensures (again t) (λ r u. SequentialOutcome (fs t) fd count r (fs u)))
      → Ensures (read_round os again r t) (λ r u. SequentialOutcome (fs s) fd count r (fs u))
  unfolding read_round
  read_round-Ensures again s t (some bytes) outcome retry = Ensures-some outcome
  read_round-Ensures again s t none (advanced i p n o q le le' eof g) retry = cc
  read_round-Ensures again s t none (not_read q g) retry =
      Ensures-if (errno t == eintr) _ _ t
        (λ intr. Ensures_mono (retry refl (ground arith)) λ r u outcome. rw g at outcome)
        (λ other. Ensures-some (not_read refl g))

  read_loop-Ensures :
      (fuel : ℕ) (s : State)
      → signals s < fuel
      → Ensures (read_loop os fuel fd count s) (λ r t. SequentialOutcome (fs s) fd count r (fs t))
  unfolding read_loop
  read_loop-Ensures zero s enough = absurd (omega arith)
  read_loop-Ensures (suc fuel) s enough =
      let t = (read fd count s).1 in
      read_round-Ensures (read_loop os fuel fd count) s t (read fd count s).0
        (laws.read_reads fd count s)
        λ failed intr.
          read_loop-Ensures fuel t (omega (arith, laws.read_interrupted fd count s failed intr))

  -- The loop ends, whatever calls are interrupted, with the outcome of one read.
  pub read_some-Ensures :
      (s : State)
      → Ensures (read_some os fd count s) (λ r t. SequentialOutcome (fs s) fd count r (fs t))
  unfolding read_some
  read_some-Ensures s = read_loop-Ensures (signals s + 1) s (omega arith)
