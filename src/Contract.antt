-- ===== src/Contract.antt =====
-- What the interface include/storage/storage/worker/chunk_store.h promises: a map from ids to
-- immutable chunks, of which Put adds one, Delete takes one out, and Head and Get read one.
pub mod Files
pub mod FilePaths
pub mod FileWrites
pub mod FileReads
pub mod FileChunkStore
pub mod Histories
pub mod Service
pub mod Accounts
pub mod Immutable
use distributed_cache_system.Prelude.{
  ℕ, ◌+◌, ◌≤◌, ◌<◌, ◌≡◌, ◌≢◌, true, false, Option, none, some, List, length,
}
use distributed_cache_system.Prelude.Action.{Ensures}
use distributed_cache_system.Status.{
  Status, is_ok, StatusOr, k_not_found, k_corruption, k_already_exists,
}
use distributed_cache_system.Types.{
  u64, ChunkId, PutChunkRequest, GetChunkRequest, HeadChunkResponse, Checksum,
}
use distributed_cache_system.Blake3.{Blake3}
use distributed_cache_system.Worker.Streams.{InputStream, OutputStream, IsHonest, Delivers, Sent}
use distributed_cache_system.Worker.Names.{finalize_hex}
use distributed_cache_system.Worker.Names.Hex.{IsBytes}
use distributed_cache_system.Worker.Header.{k_header_size}
use distributed_cache_system.Worker.FileChunkStore.Put.{k_buffer_size}
use distributed_cache_system.Worker.FileChunkStore.Put.Fill.{IsChunk}
use distributed_cache_system.Worker.FileChunkStore.Get.Loop.{slice}
use distributed_cache_system.Rpc.DataPlane.{ChunkStore}

pub record StoredChunk : Type 0 where
  pub checksum : Checksum
  pub bytes : List ℕ

-- The chunks that a store holds.
abbrev pub ChunkMap : Type 0
ChunkMap = ChunkId → Option StoredChunk

-- An id is a std::string: its characters are bytes.
abbrev pub IsId : ChunkId → Type 0
IsId chunk_id = IsBytes chunk_id.value

-- The bytes have the checksum that the chunk was stored with.
abbrev pub IsIntact : Blake3 → StoredChunk → Type 0
IsIntact b c = finalize_hex b (b.update b.init c.bytes) ≡ c.checksum.value

-- No chunk is another than before.
abbrev pub IsKept : ChunkMap → ChunkMap → Type 0
IsKept m n = (q : ChunkId) → IsId q → n q ≡ m q

-- One id holds `v`, and no other id holds another chunk than before.
pub record Sets (m : ChunkMap) (chunk_id : ChunkId) (v : Option StoredChunk) (n : ChunkMap)
    : Type 0 where
  pub at_id : n chunk_id ≡ v
  pub elsewhere : (q : ChunkId) → IsId q → chunk_id ≢ q → n q ≡ m q

-- Put: nothing changes and there is an error, or the id was free and holds what the stream has
-- delivered, as the request describes it.
pub data PutObeys {W : Type 0} (b : Blake3) (input : InputStream W) (request : PutChunkRequest)
    (w : W) (st : Status) (m n : ChunkMap) : Type 0 where
  put_refused : is_ok st ≡ false → IsKept m n → PutObeys b input request w st m n
  put_stored :
      (chunk : List ℕ) (w' : W)
      → m request.chunk_id ≡ none
      → Sets m request.chunk_id
          (some (record { checksum = request.expected_checksum; bytes = chunk }))
          n
      → IsChunk b request chunk
      → Delivers input k_buffer_size w chunk w'
      → PutObeys b input request w st m n

-- Delete: the chunk was there and is gone, or nothing changes and there is an error.
pub data DeleteObeys (chunk_id : ChunkId) (st : Status) (m n : ChunkMap) : Type 0 where
  removed :
      is_ok st ≡ true → m chunk_id ≢ none → Sets m chunk_id none n → DeleteObeys chunk_id st m n
  not_removed :
      is_ok st ≡ false
      → (st.code ≡ k_not_found → m chunk_id ≡ none)
      → IsKept m n
      → DeleteObeys chunk_id st m n

-- Head: an intact chunk's size and checksum, or an error, which is never Corruption, and NotFound
-- only where there is no chunk.
pub data HeadObeys (b : Blake3) (chunk_id : ChunkId) (r : StatusOr HeadChunkResponse) (m : ChunkMap)
    : Type 0 where
  head_refused :
      r.held_value ≡ none
      → r.held_status.code ≢ k_corruption
      → (r.held_status.code ≡ k_not_found → m chunk_id ≡ none)
      → HeadObeys b chunk_id r m
  head_reports :
      (c : StoredChunk)
      → m chunk_id ≡ some c
      → IsIntact b c
      → r.held_value
        ≡ some (record { chunk_id = chunk_id; size = length c.bytes; checksum = c.checksum })
      → HeadObeys b chunk_id r m

-- Get: an error and nothing sent, or the bytes of a range that lies inside an intact chunk.
pub data GetObeys {V : Type 0} (b : Blake3) (output : OutputStream V) (request : GetChunkRequest)
    (v : V) (st : Status) (v' : V) (m : ChunkMap) : Type 0 where
  get_refused : is_ok st ≡ false → v' ≡ v → GetObeys b output request v st v' m
  get_sends :
      (c : StoredChunk)
      → m request.chunk_id ≡ some c
      → IsIntact b c
      → request.range.offset + request.range.size ≤ length c.bytes
      → Sent output st v (slice c.bytes request.range.offset request.range.size) v'
      → GetObeys b output request v st v' m

-- A store keeps the promise, seen through `view`, in the states that `IsSound` allows, which it
-- does not leave. A request to Put is one whose size and header stay below 2^64 bytes.
pub record IsChunkStore {S : Type 0} (b : Blake3) (store : ChunkStore S) (view : S → ChunkMap)
    (IsSound : S → Type 0) : Type 1 where
  pub puts :
      {W : Type 0} (input : InputStream W) (honest : IsHonest input) (address : ℕ)
      (request : PutChunkRequest) (s : S) (w : W)
      → IsId request.chunk_id
      → request.expected_size + k_header_size < u64
      → IsSound s
      → Ensures
          (store.store_put input address request (s, w))
          (λ st t. PutObeys b input request w st (view s) (view t.0) × IsSound t.0)
  pub deletes :
      (chunk_id : ChunkId) (s : S)
      → IsId chunk_id
      → IsSound s
      → Ensures
          (store.store_delete chunk_id s)
          (λ st t. DeleteObeys chunk_id st (view s) (view t) × IsSound t)
  pub heads :
      (chunk_id : ChunkId) (s : S)
      → IsId chunk_id
      → IsSound s
      → Ensures
          (store.store_head chunk_id s)
          (λ r t. HeadObeys b chunk_id r (view s) × IsKept (view s) (view t) × IsSound t)
  pub gets :
      {V : Type 0} (output : OutputStream V) (request : GetChunkRequest) (s : S) (v : V)
      → IsId request.chunk_id
      → IsSound s
      → Ensures (store.store_get output request (s, v)) (λ st t.
        GetObeys b output request v st t.1 (view s) × IsKept (view s) (view t.0) × IsSound t.0)
