-- ===== src/Worker/Names/Hex.antt =====
-- Hex text: lower-case hex digits, two for a byte, and no two byte strings share one.
use Prim.Native.Nat.{bit_and}
use distributed_cache_system.Prelude.{
  ℕ, zero, suc, ◌+◌, ◌-◌, ◌*◌, ◌/◌, ◌<◌, ◌≡◌, refl, sym, ap, ◌∙◌, Bool, true, ◌&&◌, List, [], ◌∷◌,
  ◌==◌, ==_iff, leb, if◌then◌else◌, length, All, arith,
}
use distributed_cache_system.Types.{is_lower_hex, all_lower_hex}
use distributed_cache_system.Worker.Names.{k_hex, char_at, encode_hex}

-- A test that every number below a bound passes, by evaluation.
passes_below : (ℕ → Bool) → ℕ → Bool
passes_below test zero = true
passes_below test (suc bound) = passes_below test bound && test bound

passed :
    (test : ℕ → Bool) (bound byte : ℕ)
    → passes_below test bound ≡ true
    → byte < bound
    → test byte ≡ true
unfolding passes_below
passed test zero byte h below = absurd (omega arith)
passed test (suc bound) byte h below = ground (arith, passed test bound byte)

abbrev digit_value : ℕ → ℕ
digit_value c = if leb c b'9' then c - b'0' else c - b'a' + 10

-- The bytes that a hex text stands for.
pub decode_hex : List ℕ → List ℕ
decode_hex (hi ∷ lo ∷ rest) = (digit_value hi * 16 + digit_value lo) ∷ decode_hex rest
decode_hex _ = []

abbrev high : ℕ → ℕ
high x = char_at k_hex (x / 16)

abbrev low : ℕ → ℕ
low x = char_at k_hex (bit_and x 0x0f)

digits_table : passes_below (λ x. digit_value (high x) * 16 + digit_value (low x) == x) 256 ≡ true
unfolding passes_below
digits_table = refl

hex_table : passes_below (λ x. is_lower_hex (high x) && is_lower_hex (low x)) 256 ≡ true
unfolding passes_below
hex_table = refl

byte_digits : (x : ℕ) → x < 256 → digit_value (high x) * 16 + digit_value (low x) ≡ x
byte_digits x h = (==_iff _ x).0 (passed _ 256 x digits_table h)

byte_hex : (x : ℕ) → x < 256 → (is_lower_hex (high x) && is_lower_hex (low x)) ≡ true
byte_hex x h = passed _ 256 x hex_table h

abbrev pub IsBytes : List ℕ → Type 0
IsBytes = All (λ x. x < 256)

-- A hex text stands for the bytes that it was made from.
pub decode_hex-encode_hex : (bytes : List ℕ) → IsBytes bytes → decode_hex (encode_hex bytes) ≡ bytes
unfolding decode_hex encode_hex
decode_hex-encode_hex [] h = refl
decode_hex-encode_hex (x ∷ bytes) (hx, h) = cc (byte_digits x hx, decode_hex-encode_hex bytes h)

pub encode_hex_injective :
    (a b : List ℕ) → IsBytes a → IsBytes b → encode_hex a ≡ encode_hex b → a ≡ b
encode_hex_injective a b ha hb e =
    sym (decode_hex-encode_hex a ha) ∙ ap decode_hex e ∙ decode_hex-encode_hex b hb

pub encode_hex-all_lower_hex :
    (bytes : List ℕ) → IsBytes bytes → all_lower_hex (encode_hex bytes) ≡ true
unfolding encode_hex all_lower_hex
encode_hex-all_lower_hex [] h = refl
encode_hex-all_lower_hex (x ∷ bytes) (hx, h) =
    ground (arith, byte_hex x hx, encode_hex-all_lower_hex bytes h)

pub length-encode_hex : (bytes : List ℕ) → length (encode_hex bytes) ≡ 2 * length bytes
unfolding encode_hex
length-encode_hex [] = refl
length-encode_hex (x ∷ bytes) = omega (arith, length-encode_hex bytes)
