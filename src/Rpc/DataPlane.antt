-- ===== src/Rpc/DataPlane.antt =====
-- DataPlaneService over a ChunkStore: include/storage/storage/worker/chunk_store.h and
-- src/storage/worker/data_plane_service.cpp.
use distributed_cache_system.Prelude.{
  ℕ, ◌≡◌, refl, inl, inr, Bool-cases, true, List, not, if◌then◌else◌, text,
}
use distributed_cache_system.Prelude.Action.{Action, pure}
use distributed_cache_system.Status.{
  Status, status, is_ok, unless_failed, StatusOr, from_status, normalize_error, k_invalid_argument,
}
use distributed_cache_system.Types.{
  ChunkId, valid, PutChunkRequest, GetChunkRequest, HeadChunkResponse, validate_checksum,
}
use distributed_cache_system.Posix.{Posix}
use distributed_cache_system.Blake3.{Blake3}
use distributed_cache_system.Worker.Names.{validate_id}
use distributed_cache_system.Worker.Streams.{InputStream, OutputStream}
use distributed_cache_system.Worker.FileChunkStore.Put.{put}
use distributed_cache_system.Worker.FileChunkStore.Get.{get}
use distributed_cache_system.Worker.FileChunkStore.Head.{head}
use distributed_cache_system.Worker.FileChunkStore.Delete.{delete}

-- class ChunkStore, as far as the service calls it. The number is the address of the stream.
pub record ChunkStore (S : Type 0) : Type 1 where
  pub store_put : {W : Type 0} → InputStream W → ℕ → PutChunkRequest → Action (S × W) Status
  pub store_get : {V : Type 0} → OutputStream V → GetChunkRequest → Action (S × V) Status
  pub store_head : ChunkId → Action S (StatusOr HeadChunkResponse)
  pub store_delete : ChunkId → Action S Status

-- FileChunkStore as a ChunkStore
abbrev pub file_chunk_store : (os : Posix) → Blake3 → List ℕ → ChunkStore os.State
file_chunk_store os b root = record {
  store_put = λ input address request. put os b input request root address;
  store_get = λ output request. get os output root request;
  store_head = head os root;
  store_delete = delete os root;
}

module _ {S : Type 0} (store : ChunkStore S) where
  -- DataPlaneService::PutChunk
  unfoldable pub put_chunk :
      {W : Type 0} → InputStream W → ℕ → PutChunkRequest → Action (S × W) Status
  put_chunk input address request =
      if not (valid request.chunk_id.value)
      then pure (status k_invalid_argument (text "chunk_id cannot be empty"))
      else unless_failed (validate_checksum request.expected_checksum)
          (store.store_put input address request)

  -- DataPlaneService::GetChunk
  unfoldable pub get_chunk : {V : Type 0} → OutputStream V → GetChunkRequest → Action (S × V) Status
  get_chunk output request =
      if not (valid request.chunk_id.value)
      then pure (status k_invalid_argument (text "chunk_id cannot be empty"))
      else store.store_get output request

  -- DataPlaneService::HeadChunk
  unfoldable pub head_chunk : ChunkId → Action S (StatusOr HeadChunkResponse)
  head_chunk chunk_id =
      if not (valid chunk_id.value)
      then pure (from_status (status k_invalid_argument (text "chunk_id cannot be empty")))
      else store.store_head chunk_id

  -- DataPlaneService::DeleteChunk
  unfoldable pub delete_chunk : ChunkId → Action S Status
  delete_chunk chunk_id =
      if not (valid chunk_id.value)
      then pure (status k_invalid_argument (text "chunk_id cannot be empty"))
      else store.store_delete chunk_id

module _ (os : Posix) (b : Blake3) (root : List ℕ) where
  -- Over a FileChunkStore the tests of the service change nothing: PutChunk with a valid checksum,
  -- and GetChunk, HeadChunk and DeleteChunk on every request, are Put, Get, Head and Delete of the
  -- store.
  pub file_chunk_store_checked :
      {W V : Type 0} (input : InputStream W) (output : OutputStream V) (address : ℕ)
      (put_request : PutChunkRequest) (get_request : GetChunkRequest) (chunk_id : ChunkId)
      → is_ok (validate_checksum put_request.expected_checksum) ≡ true
      → (put_chunk (file_chunk_store os b root) input address put_request
          ≡ put os b input put_request root address)
        × (get_chunk (file_chunk_store os b root) output get_request
            ≡ get os output root get_request)
        × (head_chunk (file_chunk_store os b root) chunk_id ≡ head os root chunk_id)
        × (delete_chunk (file_chunk_store os b root) chunk_id ≡ delete os root chunk_id)
  unfolding put_chunk get_chunk head_chunk delete_chunk put get head delete validate_id status
      from_status normalize_error
  file_chunk_store_checked input output address put_request get_request chunk_id fine = (
    elim (Bool-cases (valid put_request.chunk_id.value)) [
      | inl there ↦ rw (there, fine) refl
      | inr absent ↦ rw absent refl
    ],
    elim (Bool-cases (valid get_request.chunk_id.value)) [
      | inl there ↦ rw there refl
      | inr absent ↦ rw absent refl
    ],
    elim (Bool-cases (valid chunk_id.value)) [
      | inl there ↦ rw there refl
      | inr absent ↦ rw absent refl
    ],
    elim (Bool-cases (valid chunk_id.value)) [
      | inl there ↦ rw there refl
      | inr absent ↦ rw absent refl
    ],
  )
