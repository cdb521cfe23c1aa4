-- ===== src/Contract/FileChunkStore.antt =====
-- FileChunkStore of src/storage/worker/file_chunk_store.cpp, and the promise of a ChunkStore.
use distributed_cache_system.Prelude.{List, ℕ}
use distributed_cache_system.Posix.{Posix}
use distributed_cache_system.Posix.Documented.{IsDocumented}
use distributed_cache_system.Blake3.{Blake3, IsBlake3}
use distributed_cache_system.Rpc.DataPlane.{file_chunk_store}
use distributed_cache_system.Contract.{IsChunkStore}
use distributed_cache_system.Contract.Files.{chunks, IsSound}
use distributed_cache_system.Contract.FileWrites.{put-PutObeys, delete-DeleteObeys}
use distributed_cache_system.Contract.FileReads.{head-HeadObeys, get-GetObeys}

-- With an operating system and a hash that behave as documented, for ids that are byte strings and
-- requests to Put whose size and header stay below 2^64 bytes: FileChunkStore implements a map from
-- ids to chunks, which is seen in the files under its root. From files that are each well formed and
-- match the checksum in their header every call ends and leaves such files. Put fails and changes no
-- chunk, or its id was free and then holds a chunk that the stream has delivered, of the size and
-- checksum of the request, and no other id holds another chunk than before. Delete returns OK, and
-- the id held a chunk and then holds none, and no other id holds another chunk than before; or it
-- fails and changes no chunk, with NotFound only where there was none. Head and Get change no chunk.
-- Head reports the size and the checksum of the chunk, or fails, never with Corruption, and with
-- NotFound only where there is none. Get fails and sends nothing, or the range lies inside the chunk
-- and Get sends its bytes in order, all of them where it returns OK. A chunk that Head or Get reads
-- has the BLAKE3 checksum that it was stored with.
pub file_chunk_store-IsChunkStore :
    (os : Posix) (laws : IsDocumented os) (b : Blake3) (hashes : IsBlake3 b) (root : List ℕ)
    → IsChunkStore b
        (file_chunk_store os b root)
        (λ s. chunks root (os.fs s))
        (λ s. IsSound b root (os.fs s))
file_chunk_store-IsChunkStore os laws b hashes root = record {
  puts = put-PutObeys os laws b root hashes;
  deletes = delete-DeleteObeys os laws b root;
  heads = head-HeadObeys os laws b root;
  gets = get-GetObeys os laws b root;
}
