-- ===== src/Worker/Names.antt =====
-- File names and hex text of src/storage/worker/file_chunk_store.cpp: `ValidateId`, `PathFor`,
-- the temporary name of `Put`, `FinalizeHex`.
pub mod Hex
pub mod Distinct
use Prim.Native.Nat.{bit_and}
use distributed_cache_system.Prelude.{
  ℕ, zero, suc, ◌/◌, List, [], ◌∷◌, ◌++◌, ltb, not, if◌then◌else◌, length, text,
}
use distributed_cache_system.Status.{Status, ok, status, k_invalid_argument}
use distributed_cache_system.Types.{ChunkId, valid}
use distributed_cache_system.Posix.{FilePath, Posix}
use distributed_cache_system.Blake3.{Blake3}

-- kHex; an index is below 16.
abbrev pub k_hex : List ℕ
k_hex =
    b'0' ∷ b'1' ∷ b'2' ∷ b'3' ∷ b'4' ∷ b'5' ∷ b'6' ∷ b'7' ∷ b'8' ∷ b'9' ∷ b'a' ∷ b'b' ∷ b'c' ∷ b'd'
    ∷ b'e' ∷ b'f' ∷ []

abbrev char_at : List ℕ → ℕ → ℕ
char_at [] i = 0
char_at (c ∷ cs) zero = c
char_at (c ∷ cs) (suc i) = char_at cs i

-- `kHex[byte >> 4U]` and `kHex[byte & 0x0fU]` for each byte in turn.
unfoldable pub encode_hex : List ℕ → List ℕ
encode_hex [] = []
encode_hex (byte ∷ bytes) =
    char_at k_hex (byte / 16) ∷ char_at k_hex (bit_and byte 0x0f) ∷ encode_hex bytes

-- FinalizeHex
unfoldable pub finalize_hex : (b : Blake3) → b.Hasher → List ℕ
unfolding encode_hex
finalize_hex b hasher = encode_hex (b.finalize hasher)

-- FileChunkStore::ValidateId
unfoldable pub validate_id : ChunkId → Status
unfolding status
validate_id chunk_id =
    if not (valid chunk_id.value)
    then status k_invalid_argument (text "chunk_id cannot be empty")
    else if ltb 1024 (length chunk_id.value)
    then status k_invalid_argument (text "chunk_id is too long")
    else ok

-- FileChunkStore::PathFor
unfoldable pub path_for : List ℕ → ChunkId → FilePath
unfolding encode_hex
path_for root chunk_id = record {
  directory = root;
  filename = encode_hex chunk_id.value ++ (b'.' ∷ b'c' ∷ b'h' ∷ b'u' ∷ b'n' ∷ b'k' ∷ []);
}

-- `temp_path` in Put. `address` is that of the input stream, as a number.
unfoldable pub temp_path : Posix → List ℕ → FilePath → ℕ → FilePath
temp_path os root final_path address = record {
  directory = root;
  filename =
      final_path.filename
      ++ ((b'.' ∷ b't' ∷ b'm' ∷ b'p' ∷ b'.' ∷ [])
          ++ (os.to_string os.getpid ++ (b'.' ∷ os.to_string address)));
}
