-- ===== src/Worker/Header.antt =====
-- The header of a chunk file: kMagic, the size in little-endian order, the checksum's text.
pub mod RoundTrip
use Prim.Native.Nat.{bit_and, bit_or}
use distributed_cache_system.Prelude.{
  ℕ, zero, suc, ◌+◌, ◌*◌, ◌/◌, ◌%◌, ◌^◌, List, [], ◌∷◌, ◌++◌, take, drop,
}
use distributed_cache_system.Types.{u64, Checksum, k_blake3}

-- kMagic: 'S' 'T' 'C' 'H' 'V' '1' and two zero bytes.
abbrev pub k_magic : List ℕ
k_magic = b'S' ∷ b'T' ∷ b'C' ∷ b'H' ∷ b'V' ∷ b'1' ∷ 0 ∷ 0 ∷ []

abbrev pub k_checksum_length : ℕ
k_checksum_length = 64

-- kMagic.size() + sizeof(std::uint64_t) + kChecksumLength
abbrev pub k_header_size : ℕ
k_header_size = 80

-- `(size >> (index * 8U)) & 0xffU` for the next n indices.
unfoldable pub put_size : ℕ → ℕ → ℕ → List ℕ
put_size zero index size = []
put_size (suc n) index size = bit_and (size / 2 ^ (index * 8)) 0xff ∷ put_size n (index + 1) size

-- MakeHeader. The two memcpys and the loop fill the array from its start to its end.
unfoldable pub make_header : ℕ → Checksum → List ℕ
unfolding put_size
make_header size checksum = k_magic ++ (put_size 8 0 size ++ take k_checksum_length checksum.value)

-- `size |= byte << (index * 8U)` for the bytes in turn, in 64 bits.
unfoldable pub get_size : List ℕ → ℕ → ℕ → ℕ
get_size [] index size = size
get_size (byte ∷ bytes) index size =
    get_size bytes (index + 1) (bit_or size (byte * 2 ^ (index * 8) % u64))

-- The fields as ReadHeader takes them out of the array.
abbrev pub header_magic : List ℕ → List ℕ
header_magic header = take 8 header

unfoldable pub header_size : List ℕ → ℕ
unfolding get_size
header_size header = get_size (take 8 (drop 8 header)) 0 0

unfoldable pub header_checksum : List ℕ → Checksum
header_checksum header = record {
  algorithm = k_blake3;
  value = take k_checksum_length (drop 16 header);
}
