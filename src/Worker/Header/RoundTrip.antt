-- ===== src/Worker/Header/RoundTrip.antt =====
-- The fields read back from a header are those it was made from.
use Prim.Native.Nat.{bit_or}
use distributed_cache_system.Prelude.{
  ℕ, ◌+◌, ◌*◌, ◌/◌, ◌%◌, ◌^◌, ◌<◌, ◌≡◌, ◌∙◌, ap, length, length-take, take_of_length_le, arith,
}
use native.Mathlib.Nat.{mod-eq_of_lt}
use distributed_cache_system.Prelude.Bits.{bit_or_shifted, bit_and_byte}
use distributed_cache_system.Types.{u64, Checksum}
use distributed_cache_system.Worker.Header.{
  k_header_size, put_size, make_header, get_size, header_size, header_checksum,
}

-- A byte or-ed in above the bits that are there.
or_byte : (k a b : ℕ) → a < 2 ^ k → b * 2 ^ k < u64 → bit_or a (b * 2 ^ k % u64) ≡ a + b * 2 ^ k
or_byte k a b ha hb = ap (bit_or a) (mod-eq_of_lt hb) ∙ bit_or_shifted k a b ha

first_byte : (s : ℕ) → bit_or 0 (s / 1 % 256 * 1 % u64) ≡ s % 256
first_byte s = or_byte 0 0 (s / 1 % 256) (omega arith) (omega arith) ∙ omega arith

join_8 : (s : ℕ) → bit_or (s % 256) (s / 256 % 256 * 256 % u64) ≡ s % 65536
join_8 s = or_byte 8 (s % 256) (s / 256 % 256) (omega arith) (omega arith) ∙ omega arith

join_16 : (s : ℕ) → bit_or (s % 65536) (s / 65536 % 256 * 65536 % u64) ≡ s % 16777216
join_16 s = or_byte 16 (s % 65536) (s / 65536 % 256) (omega arith) (omega arith) ∙ omega arith

join_24 : (s : ℕ) → bit_or (s % 16777216) (s / 16777216 % 256 * 16777216 % u64) ≡ s % 4294967296
join_24 s = or_byte 24 (s % 16777216) (s / 16777216 % 256) (omega arith) (omega arith) ∙ omega arith

join_32 :
    (s : ℕ) → bit_or (s % 4294967296) (s / 4294967296 % 256 * 4294967296 % u64) ≡ s % 1099511627776
join_32 s =
    or_byte 32 (s % 4294967296) (s / 4294967296 % 256) (omega arith) (omega arith) ∙ omega arith

join_40 :
    (s : ℕ)
    → bit_or (s % 1099511627776) (s / 1099511627776 % 256 * 1099511627776 % u64)
      ≡ s % 281474976710656
join_40 s =
    or_byte 40 (s % 1099511627776) (s / 1099511627776 % 256) (omega arith) (omega arith)
    ∙ omega arith

join_48 :
    (s : ℕ)
    → bit_or (s % 281474976710656) (s / 281474976710656 % 256 * 281474976710656 % u64)
      ≡ s % 72057594037927936
join_48 s =
    or_byte 48 (s % 281474976710656) (s / 281474976710656 % 256) (omega arith) (omega arith)
    ∙ omega arith

join_56 :
    (s : ℕ)
    → bit_or (s % 72057594037927936) (s / 72057594037927936 % 256 * 72057594037927936 % u64)
      ≡ s % 18446744073709551616
join_56 s =
    or_byte 56 (s % 72057594037927936) (s / 72057594037927936 % 256) (omega arith) (omega arith)
    ∙ omega arith

-- The size that ReadHeader puts together from the eight bytes of a header is the uint64_t that
-- MakeHeader has taken apart.
pub get_size-put_size : (size : ℕ) → size < u64 → get_size (put_size 8 0 size) 0 0 ≡ size
unfolding get_size put_size
get_size-put_size s h =
    rw
      (
        bit_and_byte (s / 1),
        bit_and_byte (s / 256),
        bit_and_byte (s / 65536),
        bit_and_byte (s / 16777216),
        bit_and_byte (s / 4294967296),
        bit_and_byte (s / 1099511627776),
        bit_and_byte (s / 281474976710656),
        bit_and_byte (s / 72057594037927936),
        first_byte s,
        join_8 s,
        join_16 s,
        join_24 s,
        join_32 s,
        join_40 s,
        join_48 s,
        join_56 s,
      )
      (omega arith)

module _ (size : ℕ) (checksum : Checksum) (fits : size < u64)
    (full : length checksum.value ≡ 64) where
  pub length-make_header : length (make_header size checksum) ≡ k_header_size
  unfolding make_header
  length-make_header = omega (arith, length-take {0} 64 checksum.value)

  pub header_size-make_header : header_size (make_header size checksum) ≡ size
  unfolding header_size make_header
  header_size-make_header = get_size-put_size size fits

  pub header_checksum-make_header :
      (header_checksum (make_header size checksum)).value ≡ checksum.value
  unfolding header_checksum make_header
  header_checksum-make_header =
      rw (take_of_length_le 64 checksum.value (omega arith))
        (take_of_length_le 64 checksum.value (omega arith))
