-- ===== src/Types.antt =====
-- include/storage/storage/types/*.h, src/storage/types/*.cpp and worker/data_plane_types.h.
pub mod Ranges
pub mod Checksums
use distributed_cache_system.Prelude.{
  ℕ, ◌+◌, ◌-◌, ◌%◌, ◌^◌, List, [], ◌∷◌, Bool, true, false, not, ◌&&◌, ◌||◌, ◌==◌, ltb, leb, length,
  text, if◌then◌else◌, same_bytes,
}
use distributed_cache_system.Status.{Status, ok, status, k_invalid_argument}

-- struct ObjectId, ChunkId: a std::string, by its bytes.
pub record ObjectId : Type 0 where
  pub value : List ℕ

pub record ChunkId : Type 0 where
  pub value : List ℕ

pub record WorkerId : Type 0 where
  pub value : List ℕ

-- valid(): `!value.empty()`
abbrev pub valid : List ℕ → Bool
valid [] = false
valid (c ∷ cs) = true

-- struct ByteRange; both fields are uint64_t.
pub record ByteRange : Type 0 where
  pub offset : ℕ
  pub size : ℕ

abbrev pub u64 : ℕ
u64 = 2 ^ 64

-- ValidateByteRange. `total_size - range.offset` wraps at 64 bits, as the C++ does.
unfoldable pub validate_byte_range : ByteRange → ℕ → Status
unfolding status
validate_byte_range range total_size =
    if ltb total_size range.offset
    then status k_invalid_argument (text "byte range offset exceeds object size")
    else if ltb ((total_size + u64 - range.offset) % u64) range.size
    then status k_invalid_argument (text "byte range size exceeds object boundary")
    else ok

pub data ChecksumAlgorithm : Type 0 where
  k_blake3 : ChecksumAlgorithm

-- struct Checksum
pub record Checksum : Type 0 where
  pub algorithm : ChecksumAlgorithm
  pub value : List ℕ

-- `algorithm != ChecksumAlgorithm::kBlake3`
abbrev is_blake3 : ChecksumAlgorithm → Bool
is_blake3 k_blake3 = true

-- The defaulted operator==: both members in turn.
unfoldable pub same_checksum : Checksum → Checksum → Bool
same_checksum a b = is_blake3 a.algorithm && is_blake3 b.algorithm && same_bytes a.value b.value

-- `std::isdigit(character) != 0 || (character >= 'a' && character <= 'f')`
abbrev pub is_lower_hex : ℕ → Bool
is_lower_hex c = (leb b'0' c && leb c b'9') || (leb b'a' c && leb c b'f')

-- std::ranges::all_of over the characters
unfoldable pub all_lower_hex : List ℕ → Bool
all_lower_hex [] = true
all_lower_hex (c ∷ cs) = is_lower_hex c && all_lower_hex cs

-- ValidateChecksum
unfoldable pub validate_checksum : Checksum → Status
unfolding status all_lower_hex
validate_checksum checksum =
    if not (is_blake3 checksum.algorithm)
    then status k_invalid_argument (text "unsupported checksum algorithm")
    else if not (length checksum.value == 64)
    then status k_invalid_argument (text "BLAKE3 checksum must be 64 lowercase hex characters")
    else if not (all_lower_hex checksum.value)
    then status k_invalid_argument (text "BLAKE3 checksum contains invalid characters")
    else ok

-- struct PutChunkRequest
pub record PutChunkRequest : Type 0 where
  pub chunk_id : ChunkId
  pub expected_size : ℕ
  pub expected_checksum : Checksum

-- struct GetChunkRequest
pub record GetChunkRequest : Type 0 where
  pub chunk_id : ChunkId
  pub range : ByteRange

-- struct HeadChunkResponse
pub record HeadChunkResponse : Type 0 where
  pub chunk_id : ChunkId
  pub size : ℕ
  pub checksum : Checksum

-- struct WorkerEndpoint
pub record WorkerEndpoint : Type 0 where
  pub host : List ℕ
  pub control_port : ℕ
  pub data_port : ℕ
