-- ===== src/Types/Checksums.antt =====
-- `ValidateChecksum` against the texts that it accepts.
use distributed_cache_system.Prelude.{
  ℕ, ◌≤◌, ◌≡◌, ◌↔◌, ◌⊎◌, List, [], ◌∷◌, true, length, All, same_bytes→eq, same_bytes_refl, arith,
}
use distributed_cache_system.Status.{is_ok}
use distributed_cache_system.Types.{Checksum, all_lower_hex, validate_checksum, same_checksum}

-- A digit 0-9 or a letter a-f.
abbrev pub IsLowerHex : ℕ → Type 0
IsLowerHex c = ((b'0' ≤ c) × (c ≤ b'9')) ⊎ ((b'a' ≤ c) × (c ≤ b'f'))

pub all_lower_hex_iff : (cs : List ℕ) → (all_lower_hex cs ≡ true) ↔ All IsLowerHex cs
unfolding all_lower_hex
all_lower_hex_iff [] = ground arith
all_lower_hex_iff (c ∷ cs) = ground (arith, all_lower_hex_iff cs)

-- A checksum is accepted exactly when its text has 64 characters, each 0-9 or a-f.
pub validate_checksum_iff :
    (checksum : Checksum)
    → (is_ok (validate_checksum checksum) ≡ true)
      ↔ ((length checksum.value ≡ 64) × All IsLowerHex checksum.value)
unfolding validate_checksum
validate_checksum_iff checksum = ground (arith, all_lower_hex_iff checksum.value)

pub same_checksum→eq : (a b : Checksum) → same_checksum a b ≡ true → a.value ≡ b.value
unfolding same_checksum
same_checksum→eq a b h = ground (arith, same_bytes→eq a.value b.value)

pub same_checksum_refl : (a : Checksum) → same_checksum a a ≡ true
unfolding same_checksum
same_checksum_refl a = ground (arith, same_bytes_refl a.value)
