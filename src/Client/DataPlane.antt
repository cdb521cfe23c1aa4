-- ===== src/Client/DataPlane.antt =====
-- class DataPlaneClient of include/storage/storage/client/data_plane_client.h: what StorageClient
-- asks of the transfers, and what it relies on in them.
use distributed_cache_system.Prelude.{ℕ, ◌≡◌, ◌≢◌, true, false, none, some}
use distributed_cache_system.Prelude.Action.{Action, Ensures}
use distributed_cache_system.Status.{Status, is_ok, StatusOr}
use distributed_cache_system.Types.{
  ChunkId, PutChunkRequest, GetChunkRequest, HeadChunkResponse, WorkerEndpoint,
}
use distributed_cache_system.Posix.{FilePath, Fs, Posix}

-- `N` is the state of the network and of the worker.
pub record DataPlaneClient (os : Posix) (N : Type 0) : Type 0 where
  pub put_chunk : WorkerEndpoint → PutChunkRequest → FilePath → Action (os.State × N) Status
  pub get_chunk : WorkerEndpoint → GetChunkRequest → FilePath → Action (os.State × N) Status
  pub head_chunk : WorkerEndpoint → ChunkId → Action (os.State × N) (StatusOr HeadChunkResponse)
  pub delete_chunk : WorkerEndpoint → ChunkId → Action (os.State × N) Status

-- A download to `path` touches no other file. Where it succeeds, `path` was free and names a new
-- file.
pub record Downloaded (path : FilePath) (f : Fs) (st : Status) (g : Fs) : Type 0 where
  pub others : (q : FilePath) → path ≢ q → g.entry q ≡ f.entry q
  pub contents : (q : FilePath) (j : ℕ) → f.entry q ≡ some j → g.bytes j ≡ f.bytes j
  pub descriptors : g.opened ≡ f.opened
  pub created :
      is_ok st ≡ true
      → (i : ℕ) × (f.entry path ≡ none)
        × (g.entry path ≡ some i)
        × ((q : FilePath) → f.entry q ≢ some i)

-- The calls end, and of the client's files only a download changes one.
pub record IsDataPlaneClient (os : Posix) {N : Type 0} (client : DataPlaneClient os N)
    : Type 0 where
  pub put_chunk-Ensures :
      (to : WorkerEndpoint) (request : PutChunkRequest) (source : FilePath) (s : os.State) (n : N)
      → Ensures (client.put_chunk to request source (s, n)) (λ st t. os.fs t.0 ≡ os.fs s)
  pub get_chunk-Ensures :
      (to : WorkerEndpoint) (request : GetChunkRequest) (path : FilePath) (s : os.State) (n : N)
      → Ensures
          (client.get_chunk to request path (s, n))
          (λ st t. Downloaded path (os.fs s) st (os.fs t.0))
  pub head_chunk-Ensures :
      (to : WorkerEndpoint) (chunk_id : ChunkId) (s : os.State) (n : N)
      → Ensures
          (client.head_chunk to chunk_id (s, n))
          (λ r t. (r.held_value ≡ none → is_ok r.held_status ≡ false) × (os.fs t.0 ≡ os.fs s))
  pub delete_chunk-Ensures :
      (to : WorkerEndpoint) (chunk_id : ChunkId) (s : os.State) (n : N)
      → Ensures (client.delete_chunk to chunk_id (s, n)) (λ st t. os.fs t.0 ≡ os.fs s)
