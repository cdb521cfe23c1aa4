-- ===== src/Tests/Examples.antt =====
-- The theorems, applied to the system in memory.
use distributed_cache_system.Prelude.{
  ℕ, ◌+◌, ◌≤◌, ◌≡◌, ◌≢◌, ◌↔◌, refl, true, Option, none, some, List, [], ◌∷◌, All, length, arith,
}
use distributed_cache_system.Prelude.Tests.{same_bytes}
use distributed_cache_system.Prelude.Action.{Ensures}
use distributed_cache_system.Prelude.Maps.{update}
use distributed_cache_system.Status.{Status, ok, status, is_ok, from_value}
use distributed_cache_system.Types.{validate_byte_range, validate_checksum, GetChunkRequest}
use distributed_cache_system.Types.Ranges.{validate_byte_range_iff}
use distributed_cache_system.Types.Checksums.{IsLowerHex, validate_checksum_iff}
use distributed_cache_system.Posix.{appended, pos, file, int_eq, nat_eq, path_eq}
use distributed_cache_system.Worker.Streams.{Delivers}
use distributed_cache_system.Worker.Names.{
  validate_id, path_for, temp_path, encode_hex, finalize_hex,
}
use distributed_cache_system.Worker.Names.Hex.{decode_hex, decode_hex-encode_hex}
use distributed_cache_system.Worker.Names.Distinct.{path_for_injective, temp_path-ne-path_for}
use distributed_cache_system.Worker.Header.{
  put_size, get_size, make_header, header_checksum, header_size,
}
use distributed_cache_system.Worker.Header.RoundTrip.{get_size-put_size}
use distributed_cache_system.Worker.Calls.{write_all, pread_some}
use distributed_cache_system.Worker.Calls.WriteLaws.{Appends, write_all-Ensures}
use distributed_cache_system.Worker.Calls.Progress.{write_all-ok}
use distributed_cache_system.Worker.Calls.ReadLaws.{Reads, pread_some-Ensures}
use distributed_cache_system.Worker.FileChunkStore.Put.{k_buffer_size, put}
use distributed_cache_system.Worker.FileChunkStore.Put.Fill.{IsChunk}
use distributed_cache_system.Worker.FileChunkStore.Put.Outcome.{PutOutcome}
use distributed_cache_system.Worker.FileChunkStore.Put.Atomic.{put-Ensures}
use distributed_cache_system.Worker.FileChunkStore.Head.{head}
use distributed_cache_system.Worker.FileChunkStore.Head.Outcome.{HeadOutcome, head-Ensures}
use distributed_cache_system.Worker.FileChunkStore.Get.{get}
use distributed_cache_system.Worker.FileChunkStore.Get.Outcome.{GetOutcome, get-Ensures}
use distributed_cache_system.Worker.FileChunkStore.Delete.{delete, DeleteOutcome, delete-Ensures}
use distributed_cache_system.Worker.FileChunkStore.RoundTrip.{Serves, put-Serves}
use distributed_cache_system.Tests.Memory.{Memory, fs, next_fd, next_file, memory}
use distributed_cache_system.Tests.Memory.Documented.{memory-IsDocumented, memory-IsTaking}
use distributed_cache_system.Tests.Inputs.{
  toy_hash, toy_hash-IsBlake3, pieces, pieces-IsHonest, kept, request, root, empty,
}

-- The chunk "hi!" in two pieces.
abbrev pub delivery : List (List ℕ)
delivery = (b'h' ∷ []) ∷ (b'i' ∷ b'!' ∷ []) ∷ []

abbrev pub ended : {A : Type 0} → A → Option A → A
ended x none = x
ended x (some y) = y

-- What Put leaves in memory.
unfoldable pub after_put : Status × (Memory × List (List ℕ))
unfolding put
after_put = ended (ok, (empty, [])) (put memory toy_hash pieces request root 7 (empty, delivery))

abbrev pub filled : Memory
filled = after_put.1.0

abbrev pub range : GetChunkRequest
range = record { chunk_id = request.chunk_id; range = record { offset = 1; size = 2 } }

pub put_runs :
    put memory toy_hash pieces request root 7 (empty, delivery)
    ≡ some (after_put.0, (after_put.1.0, after_put.1.1))
unfolding after_put put validate_id validate_checksum write_all make_header update next_fd
    from_value same_bytes finalize_hex temp_path path_for
put_runs = refl

put_is_ok : is_ok after_put.0 ≡ true
unfolding after_put put validate_id validate_checksum write_all make_header update next_fd
    from_value same_bytes finalize_hex temp_path path_for
put_is_ok = refl

-- Get of the last two bytes sends them.
get_runs :
    get memory kept root range (filled, [])
    ≡ some (
      ok,
      ((ended (ok, (filled, [])) (get memory kept root range (filled, []))).1.0, b'i' ∷ b'!' ∷ []),
    )
unfolding after_put get put validate_id validate_checksum write_all make_header update next_fd
    from_value same_bytes finalize_hex temp_path path_for pread_some next_file header_checksum
    header_size validate_byte_range head status
get_runs = refl

put-Serves_example :
    (chunk : List ℕ) × IsChunk toy_hash request chunk
    × Delivers pieces k_buffer_size delivery chunk after_put.1.1
    × Serves memory root request chunk filled
put-Serves_example =
    put-Serves memory memory-IsDocumented toy_hash toy_hash-IsBlake3 pieces pieces-IsHonest request
      root 7 empty filled delivery after_put.1.1 after_put.0 (omega arith) put_runs put_is_ok

put-Ensures_example : Ensures (put memory toy_hash pieces request root 7 (empty, delivery)) (λ st t.
    PutOutcome toy_hash request pieces
      (temp_path memory root (path_for root request.chunk_id) 7)
      (path_for root request.chunk_id)
      (fs empty)
      delivery
      st
      (fs t.0)
      t.1)
put-Ensures_example =
    put-Ensures memory memory-IsDocumented toy_hash toy_hash-IsBlake3 pieces pieces-IsHonest request
      root 7 empty delivery

get-Ensures_example :
    Ensures
      (get memory kept root range (filled, []))
      (λ st u. GetOutcome kept root range (fs filled) [] st u.1 × (fs u.0 ≡ fs filled))
get-Ensures_example = get-Ensures memory memory-IsDocumented kept root range filled []

head-Ensures_example :
    Ensures
      (head memory root request.chunk_id filled)
      (λ r t. HeadOutcome root request.chunk_id (fs filled) r × (fs t ≡ fs filled))
head-Ensures_example = head-Ensures memory memory-IsDocumented root request.chunk_id filled

delete-Ensures_example :
    Ensures
      (delete memory root request.chunk_id filled)
      (λ st t. DeleteOutcome (path_for root request.chunk_id) (fs filled) st (fs t))
delete-Ensures_example = delete-Ensures memory memory-IsDocumented root request.chunk_id filled

-- A file of two bytes, open at its end, with a signal to come.
abbrev two_bytes : Memory
two_bytes = record {
  entries = [];
  files = (0, 1 ∷ 2 ∷ []) ∷ [];
  descriptors = (pos 3, some (file 0 2)) ∷ [];
  error = 0;
  pending = 1;
}

two_bytes-open : (fs two_bytes).opened (pos 3) ≡ some (file 0 2)
unfolding update
two_bytes-open = refl

write_all-Ensures_example :
    Ensures
      (write_all memory (pos 3) (5 ∷ 6 ∷ []) two_bytes)
      (λ st t. Appends (fs two_bytes) (pos 3) 0 (5 ∷ 6 ∷ []) st (fs t))
unfolding update
write_all-Ensures_example =
    write_all-Ensures memory memory-IsDocumented (pos 3) (5 ∷ 6 ∷ []) two_bytes two_bytes-open

write_all-ok_example :
    Ensures
      (write_all memory (pos 3) (5 ∷ 6 ∷ []) two_bytes)
      (λ st t. (is_ok st ≡ true) × (fs t ≡ appended (fs two_bytes) (pos 3) 0 (5 ∷ 6 ∷ [])))
unfolding update
write_all-ok_example =
    write_all-ok memory memory-IsDocumented memory-IsTaking (pos 3) (5 ∷ 6 ∷ []) two_bytes 0
      two_bytes-open

pread_some-Ensures_example :
    Ensures
      (pread_some memory (pos 3) 1 1 two_bytes)
      (λ st t. Reads ((fs two_bytes).bytes 0) 1 1 st × (fs t ≡ fs two_bytes))
pread_some-Ensures_example =
    pread_some-Ensures memory memory-IsDocumented (pos 3) 1 1 two_bytes 0 2 two_bytes-open

path_for_injective_example : request.chunk_id ≡ request.chunk_id
path_for_injective_example =
    path_for_injective root request.chunk_id request.chunk_id ((omega arith), tt)
      ((omega arith), tt) refl

temp_path-ne-path_for_example :
    temp_path memory root (path_for root request.chunk_id) 7
    ≢ path_for root (record { value = 200 ∷ [] })
temp_path-ne-path_for_example =
    temp_path-ne-path_for memory root request.chunk_id (record { value = 200 ∷ [] }) 7
      ((omega arith), tt) ((omega arith), tt)

decode_hex-encode_hex_example : decode_hex (encode_hex (0 ∷ 171 ∷ 255 ∷ [])) ≡ 0 ∷ 171 ∷ 255 ∷ []
decode_hex-encode_hex_example =
    decode_hex-encode_hex (0 ∷ 171 ∷ 255 ∷ []) (omega arith, (omega arith, (omega arith, tt)))

get_size-put_size_example : get_size (put_size 8 0 305419896) 0 0 ≡ 305419896
get_size-put_size_example = get_size-put_size 305419896 (omega arith)

validate_byte_range_iff_example :
    (is_ok (validate_byte_range (record { offset = 4; size = 6 }) 10) ≡ true) ↔ (4 + 6 ≤ 10)
validate_byte_range_iff_example =
    validate_byte_range_iff (record { offset = 4; size = 6 }) 10 (omega arith)

validate_checksum_iff_example : (is_ok (validate_checksum request.expected_checksum) ≡ true) ↔ (
    (length request.expected_checksum.value ≡ 64) × All IsLowerHex request.expected_checksum.value)
validate_checksum_iff_example = validate_checksum_iff request.expected_checksum
