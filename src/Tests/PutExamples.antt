-- ===== src/Tests/PutExamples.antt =====
-- A Put that succeeds in memory.
use distributed_cache_system.Prelude.{
  ℕ, ◌≡◌, refl, ap, true, Option, some, List, [], ◌∷◌, min, take, drop, length, length-take, arith,
}
use mathlib.Core.Option.{some-injective}
use distributed_cache_system.Prelude.Action.{Ensures}
use distributed_cache_system.Status.{is_ok, from_value}
use distributed_cache_system.Types.{validate_checksum}
use distributed_cache_system.Worker.Streams.{InputStream, IsHonest, Delivers, at_end, more}
use distributed_cache_system.Worker.Names.{
  encode_hex, validate_id, path_for, temp_path, finalize_hex,
}
use distributed_cache_system.Worker.FileChunkStore.Put.{k_buffer_size, separator, path_string, put}
use distributed_cache_system.Worker.FileChunkStore.Put.Fill.{IsChunk, chunk_file}
use distributed_cache_system.Worker.FileChunkStore.Put.Progress.{IsBounded}
use distributed_cache_system.Worker.FileChunkStore.Put.Success.{put-ok}
use distributed_cache_system.Worker.FileChunkStore.Put.Working.{Limits, Fits, IsWorking}
use distributed_cache_system.Tests.Memory.{fs, memory}
use distributed_cache_system.Tests.Memory.Documented.{memory-IsDocumented, memory-IsTaking}
use distributed_cache_system.Tests.Inputs.{toy_hash, toy_hash-IsBlake3, request, root, empty}

-- At most two bytes at a time.
abbrev pairs : InputStream (List ℕ)
pairs = record {
  read = λ capacity bytes. (from_value (take (min capacity 2) bytes), drop (min capacity 2) bytes);
}

pairs-IsHonest : IsHonest pairs
unfolding from_value
pairs-IsHonest bytes capacity = λ h. cc

length-some :
    (xs ys : List ℕ) → ◌≡◌ {A = Option (List ℕ)} (some xs) (some ys) → length xs ≡ length ys
length-some xs ys e = ap length (some-injective _ _ e)

pairs-IsBounded : IsBounded pairs
unfolding from_value
pairs-IsBounded bytes capacity piece e =
    omega (arith, length-take (min capacity 2) bytes, length-some _ _ e)

abbrev greeting : List ℕ
greeting = b'h' ∷ b'i' ∷ b'!' ∷ []

greeting_delivered : Delivers pairs k_buffer_size greeting greeting []
unfolding from_value
greeting_delivered =
    more (b'h' ∷ b'i' ∷ []) (b'!' ∷ []) refl (λ e. omega arith) refl
      (more (b'!' ∷ []) [] refl (λ e. omega arith) refl (at_end refl refl refl))

greeting-IsChunk : IsChunk toy_hash request greeting
unfolding finalize_hex
greeting-IsChunk = record { size = refl; checksum = refl }

-- NAME_MAX and PATH_MAX of Linux.
abbrev linux : Limits
linux = record { name_max = 255; path_max = 4095 }

memory-IsWorking : IsWorking memory root linux
memory-IsWorking = record {
  taking = memory-IsTaking;
  syncing = λ fd m i p h. refl;
  makes_root = λ m. refl;
  creates = λ path m at_root fits free. rw free refl;
  links = λ from to m i at_root at_root' fits named free. rw (named, free) refl;
  opens_root = λ m. refl;
  syncs_directory = λ fd m h. refl;
}

id_is_valid : is_ok (validate_id request.chunk_id) ≡ true
unfolding validate_id
id_is_valid = refl

checksum_is_valid : is_ok (validate_checksum request.expected_checksum) ≡ true
unfolding validate_checksum
checksum_is_valid = refl

name-Fits : Fits linux (temp_path memory root (path_for root request.chunk_id) 7)
unfolding path_for temp_path path_string separator encode_hex
name-Fits = record { name_fits = omega arith; path_fits = omega arith }

put-ok_example : Ensures (put memory toy_hash pairs request root 7 (empty, greeting)) (λ st t.
    (is_ok st ≡ true)
    × ((i : ℕ) × ((fs t.0).entry (path_for root request.chunk_id) ≡ some i)
        × ((fs t.0).bytes i ≡ chunk_file request greeting)))
put-ok_example =
    put-ok memory memory-IsDocumented toy_hash toy_hash-IsBlake3 pairs pairs-IsHonest
      pairs-IsBounded request root linux memory-IsWorking 7 greeting empty id_is_valid
      checksum_is_valid greeting-IsChunk greeting_delivered name-Fits refl refl
