-- ===== src/Tests/ContractExamples.antt =====
-- The promise of a ChunkStore, for the system in memory.
use distributed_cache_system.Prelude.{ℕ, ◌+◌, ◌≤◌, ◌≡◌, refl, some, List, [], ◌∷◌, All, arith}
use distributed_cache_system.Prelude.Action.{Ensures, Ensures-of, Ensures_mono}
use distributed_cache_system.Prelude.Tests.{same_bytes}
use distributed_cache_system.Prelude.Maps.{update}
use distributed_cache_system.Status.{from_value}
use distributed_cache_system.Types.{validate_checksum}
use distributed_cache_system.Worker.Calls.{write_all}
use distributed_cache_system.Worker.Names.{validate_id, path_for, temp_path, finalize_hex}
use distributed_cache_system.Worker.Header.{make_header, header_checksum}
use distributed_cache_system.Worker.FileChunkStore.Put.{put}
use distributed_cache_system.Rpc.DataPlane.{file_chunk_store}
use distributed_cache_system.Contract.{IsChunkStore, StoredChunk}
use distributed_cache_system.Contract.Files.{chunks, IsSound}
use distributed_cache_system.Contract.FileWrites.{put-PutObeys}
use distributed_cache_system.Contract.FileChunkStore.{file_chunk_store-IsChunkStore}
use distributed_cache_system.Contract.Histories.{
  Call, put_call, get_call, head_call, delete_call, Reply, serve_all, IsProper, History,
}
use distributed_cache_system.Contract.Service.{serve_all-History}
use distributed_cache_system.Contract.Accounts.{held, puts_ok, deletes_ok, serve_all-balance}
use distributed_cache_system.Contract.Immutable.{Shows, serve_all-Shows}
use distributed_cache_system.Tests.Memory.{fs, next_fd, next_file, memory}
use distributed_cache_system.Tests.Memory.Documented.{memory-IsDocumented}
use distributed_cache_system.Tests.Inputs.{
  toy_hash, toy_hash-IsBlake3, pieces, pieces-IsHonest, kept, request, root, empty,
}
use distributed_cache_system.Tests.Examples.{delivery, after_put, filled, put_runs, range}

file_chunk_store-IsChunkStore_example :
    IsChunkStore toy_hash
      (file_chunk_store memory toy_hash root)
      (λ s. chunks root (fs s))
      (λ s. IsSound toy_hash root (fs s))
file_chunk_store-IsChunkStore_example =
    file_chunk_store-IsChunkStore memory memory-IsDocumented toy_hash toy_hash-IsBlake3 root

-- The store, for the examples below.
the_store :
    IsChunkStore toy_hash
      (file_chunk_store memory toy_hash root)
      (λ s. chunks root (fs s))
      (λ s. IsSound toy_hash root (fs s))
the_store = file_chunk_store-IsChunkStore memory memory-IsDocumented toy_hash toy_hash-IsBlake3 root

-- A store with no file is sound.
empty-IsSound : IsSound toy_hash root (fs empty)
unfolding update
empty-IsSound = record { well_formed = λ q i is e. cc; intact = λ q i is e. cc }

-- A Put of an id that is taken, a Head, a Get and a Delete.
abbrev second_put : Call (List (List ℕ)) (List ℕ)
second_put = put_call 8 request delivery

abbrev reads : List (Call (List (List ℕ)) (List ℕ))
reads = second_put ∷ head_call request.chunk_id ∷ get_call range [] ∷ []

abbrev calls : List (Call (List (List ℕ)) (List ℕ))
calls = second_put ∷ delete_call request.chunk_id ∷ reads

reads-IsProper : All IsProper reads
reads-IsProper = (((omega arith, tt), omega arith), ((omega arith, tt), ((omega arith, tt), tt)))

calls-IsProper : All IsProper calls
calls-IsProper = (((omega arith, tt), omega arith), ((omega arith, tt), reads-IsProper))

abbrev hi : StoredChunk
hi = record { checksum = request.expected_checksum; bytes = b'h' ∷ b'i' ∷ b'!' ∷ [] }

hi_there : chunks root (fs filled) request.chunk_id ≡ some hi
unfolding after_put put validate_id validate_checksum write_all make_header update next_fd
    from_value finalize_hex temp_path path_for header_checksum same_bytes next_file
hi_there = refl

-- Put leaves files that are sound.
pub filled-IsSound : IsSound toy_hash root (fs filled)
filled-IsSound =
    (Ensures-of
      (put-PutObeys memory memory-IsDocumented toy_hash root toy_hash-IsBlake3 pieces
        pieces-IsHonest 7 request empty delivery (omega arith, tt) (omega arith) empty-IsSound)
      put_runs).1

serve_all-History_example :
    Ensures
      (serve_all (file_chunk_store memory toy_hash root) pieces kept calls filled)
      (λ replies t.
        History toy_hash pieces kept (chunks root (fs filled)) (chunks root (fs t)) calls replies
        × IsSound toy_hash root (fs t))
serve_all-History_example =
    serve_all-History toy_hash (file_chunk_store memory toy_hash root) (λ s. chunks root (fs s))
      (λ s. IsSound toy_hash root (fs s)) the_store pieces pieces-IsHonest kept calls filled
      calls-IsProper filled-IsSound

serve_all-balance_example :
    Ensures
      (serve_all (file_chunk_store memory toy_hash root) pieces kept calls filled)
      (λ replies t.
        held (chunks root (fs filled) request.chunk_id) + puts_ok request.chunk_id calls replies
        ≤ held (chunks root (fs t) request.chunk_id) + deletes_ok request.chunk_id calls replies)
serve_all-balance_example =
    serve_all-balance memory memory-IsDocumented toy_hash toy_hash-IsBlake3 root pieces
      pieces-IsHonest kept calls filled request.chunk_id calls-IsProper filled-IsSound
      (omega arith, tt)

-- The calls that delete nothing, and what they end with.
nothing_deleted : (replies : List (Reply (List ℕ))) → deletes_ok request.chunk_id reads replies ≡ 0
unfolding deletes_ok
nothing_deleted [] = refl
nothing_deleted (r ∷ []) = refl
nothing_deleted (r ∷ p ∷ []) = refl
nothing_deleted (r ∷ p ∷ q ∷ []) = refl
nothing_deleted (r ∷ p ∷ q ∷ o ∷ replies) = refl

reads_end :
    Ensures
      (serve_all (file_chunk_store memory toy_hash root) pieces kept reads filled)
      (λ replies t. deletes_ok request.chunk_id reads replies ≡ 0)
reads_end =
    Ensures_mono
      (serve_all-History toy_hash (file_chunk_store memory toy_hash root) _ _ the_store pieces
        pieces-IsHonest kept reads filled reads-IsProper filled-IsSound)
      λ replies t h. nothing_deleted replies

serve_all-Shows_example :
    (chunks root (fs reads_end.state) request.chunk_id ≡ some hi)
    × Shows (file_chunk_store memory toy_hash root) request.chunk_id hi reads_end.state
serve_all-Shows_example =
    serve_all-Shows memory memory-IsDocumented toy_hash toy_hash-IsBlake3 root pieces
      pieces-IsHonest kept reads reads_end.value filled reads_end.state request.chunk_id hi
      reads-IsProper filled-IsSound (omega arith, tt) hi_there reads_end.returned reads_end.holds
