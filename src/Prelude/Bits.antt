-- ===== src/Prelude/Bits.antt =====
-- The laws of the bit operations that the code relies on: fields that do not overlap add up, and a
-- mask of eight ones takes a remainder.
use Prim.Native.Nat.{
  ℕ, zero, suc, ◌+◌, ◌-◌, ◌*◌, ◌/◌, ◌%◌, ◌^◌, ◌≤◌, ◌<◌, min, max, bit_and, bit_or, digits,
  bit_and-bitwise, bit_or-bitwise,
}
use mathlib.Core.Path.{◌≡◌, refl, sym, ap, ◌∙◌}
use native.Mathlib.Nat.{pow-suc}
use native.Mathlib.Omega.{arith}

-- An operation on digits, `op`, with `alone` for what is left of the second number.
module _ (alone : ℕ → ℕ) (op : ℕ → ℕ → ℕ) where
  abbrev merged : ℕ → ℕ → ℕ → ℕ
  merged count x y = digits alone op count x y

  -- More digits than the first number has change nothing.
  merged-suc : (count x y : ℕ) → x ≤ count → merged (suc count) x y ≡ merged count x y
  merged-suc zero zero y le = refl
  merged-suc (suc count) zero y le = refl
  merged-suc zero (suc x) y le = absurd (omega arith)
  merged-suc (suc count) (suc x) y le =
      ap (λ r. r * 2 + op (suc x % 2) (y % 2)) (merged-suc count (suc x / 2) (y / 2) (omega arith))

  merged_spare : (spare count x y : ℕ) → count ≡ spare + x → merged count x y ≡ merged x x y
  merged_spare zero count x y e = ap (λ n. merged n x y) (omega (arith, e))
  merged_spare (suc spare) zero x y e = absurd (omega arith)
  merged_spare (suc spare) (suc count) x y e =
      merged-suc count x y (omega arith) ∙ merged_spare spare count x y (omega arith)

  -- The lowest digit of the result, and the rest of it.
  merged_unfold :
      (x y : ℕ)
      → merged (suc x) (suc x) y
        ≡ merged (suc x / 2) (suc x / 2) (y / 2) * 2 + op (suc x % 2) (y % 2)
  merged_unfold x y =
      ap (λ r. r * 2 + op (suc x % 2) (y % 2))
        (merged_spare (x - suc x / 2) x (suc x / 2) (y / 2) (omega arith))

or_low_digit : (x y : ℕ) → bit_or x y ≡ bit_or (x / 2) (y / 2) * 2 + max (x % 2) (y % 2)
or_low_digit zero y = omega (arith, bit_or-bitwise 0 y, bit_or-bitwise 0 (y / 2))
or_low_digit (suc x) y =
    bit_or-bitwise (suc x) y
    ∙ merged_unfold (λ b. b) max x y
    ∙ ap (λ r. r * 2 + max (suc x % 2) (y % 2)) (sym (bit_or-bitwise (suc x / 2) (y / 2)))

and_low_digit : (x y : ℕ) → bit_and x y ≡ bit_and (x / 2) (y / 2) * 2 + min (x % 2) (y % 2)
and_low_digit zero y = omega (arith, bit_and-bitwise 0 y, bit_and-bitwise 0 (y / 2))
and_low_digit (suc x) y =
    bit_and-bitwise (suc x) y
    ∙ merged_unfold (λ b. 0) min x y
    ∙ ap (λ r. r * 2 + min (suc x % 2) (y % 2)) (sym (bit_and-bitwise (suc x / 2) (y / 2)))

half_double : (n : ℕ) → n * 2 / 2 ≡ n
half_double n = omega arith

-- A value below 2^k, or-ed with a field shifted by k.
pub bit_or_shifted : (k r q : ℕ) → r < 2 ^ k → bit_or r (q * 2 ^ k) ≡ r + q * 2 ^ k
bit_or_shifted zero zero q h = omega (arith, bit_or-bitwise 0 (q * 2 ^ 0))
bit_or_shifted zero (suc r) q h = absurd (omega arith)
bit_or_shifted (suc k) r q h =
    let e : q * 2 ^ suc k ≡ q * 2 ^ k * 2 = rw (pow-suc 2 k) (omega arith) in
    let fits : r / 2 < 2 ^ k = omega (arith, pow-suc 2 k) in
    rw e (
      omega (
        arith,
        or_low_digit r (q * 2 ^ k * 2),
        bit_or_shifted k (r / 2) q fits,
        ap (bit_or (r / 2)) (half_double (q * 2 ^ k)),
      ))

-- Masks of ones, one more bit at a time.
mask_next :
    (m p : ℕ)
    → ((a : ℕ) → bit_and a m ≡ a % p)
    → (a : ℕ) → bit_and a (m * 2 + 1) ≡ a / 2 % p * 2 + a % 2
mask_next m p h a =
    omega (arith, and_low_digit a (m * 2 + 1), ap (bit_and (a / 2)) (half_odd m), h (a / 2))
  where
    half_odd : (n : ℕ) → (n * 2 + 1) / 2 ≡ n
    half_odd n = omega arith

mask_none_below : (n a : ℕ) → a ≤ n → bit_and a 0 ≡ a % 1
mask_none_below zero a h = omega (arith, ap (λ x. bit_and x 0) nothing)
  where
    nothing : a ≡ 0
    nothing = omega arith
mask_none_below (suc n) a h =
    omega (arith, and_low_digit a 0, mask_none_below n (a / 2) (omega arith))

mask_none : (a : ℕ) → bit_and a 0 ≡ a % 1
mask_none a = mask_none_below a a (omega arith)

mask_one : (a : ℕ) → bit_and a 1 ≡ a % 2
mask_one a = omega (arith, mask_next 0 1 mask_none a)

mask_three : (a : ℕ) → bit_and a 3 ≡ a % 4
mask_three a = omega (arith, mask_next 1 2 mask_one a)

mask_seven : (a : ℕ) → bit_and a 7 ≡ a % 8
mask_seven a = omega (arith, mask_next 3 4 mask_three a)

mask_fifteen : (a : ℕ) → bit_and a 15 ≡ a % 16
mask_fifteen a = omega (arith, mask_next 7 8 mask_seven a)

mask_31 : (a : ℕ) → bit_and a 31 ≡ a % 32
mask_31 a = omega (arith, mask_next 15 16 mask_fifteen a)

mask_63 : (a : ℕ) → bit_and a 63 ≡ a % 64
mask_63 a = omega (arith, mask_next 31 32 mask_31 a)

mask_127 : (a : ℕ) → bit_and a 127 ≡ a % 128
mask_127 a = omega (arith, mask_next 63 64 mask_63 a)

-- The low byte.
pub bit_and_byte : (a : ℕ) → bit_and a 0xff ≡ a % 256
bit_and_byte a = omega (arith, mask_next 127 128 mask_127 a)
