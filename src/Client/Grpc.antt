-- ===== src/Client/Grpc.antt =====
-- GrpcDataPlaneClient of src/storage/client/data_plane_client.cpp, over a gRPC stub.
pub mod Receiving
pub mod Download
pub mod Sending
pub mod Upload
pub mod Lawful
use distributed_cache_system.Prelude.{
  ℕ, zero, suc, ◌+◌, ◌*◌, ◌==◌, Bool, true, false, Option, none, some, List, ◌++◌, ◌∷◌,
  if◌then◌else◌, length, text,
}
use distributed_cache_system.Prelude.Action.{
  Action, pure, call, gets, ◌>>=◌, ◌>>◌, on_first, on_second, change_second,
}
use distributed_cache_system.Status.{
  Status, ok, status, is_ok, StatusOr, from_status, from_value, k_io_error, k_already_exists,
}
use distributed_cache_system.Types.{
  ChunkId, k_blake3, PutChunkRequest, GetChunkRequest, HeadChunkResponse, WorkerEndpoint,
}
use distributed_cache_system.Posix.{ℤ, FilePath, create_new, read_only, Posix}
use distributed_cache_system.UniqueFd.{UniqueFd, unique_fd, owns, destroy}
use distributed_cache_system.Worker.Calls.{write_all}
use distributed_cache_system.Rpc.Codes.{
  RpcStatus, GrpcStatus, is_grpc_ok, from_rpc_status, from_grpc_status,
}
use distributed_cache_system.Rpc.Messages.{GetMessage, HeadMessage}
use distributed_cache_system.Rpc.Streams.{PutChunkFrame, metadata, data_bytes}
use distributed_cache_system.Client.Reads.{rounds_left, read_some}
use distributed_cache_system.Client.Stub.{WorkerStub}
use distributed_cache_system.Client.DataPlane.{DataPlaneClient}

-- kBufferSize
abbrev pub k_buffer_size : ℕ
k_buffer_size = 3 * 1024 * 1024

-- What a call's Finish and its response come to, as PutChunk and DeleteChunk return it.
unfoldable pub call_status : GrpcStatus × RpcStatus → Status
call_status (grpc, response) =
    if is_grpc_ok grpc.error_code then from_rpc_status response else from_grpc_status grpc

-- The result of HeadChunk, from the call's status and response.
unfoldable pub head_result : GrpcStatus × HeadMessage → StatusOr HeadChunkResponse
head_result (grpc, response) =
    if is_grpc_ok grpc.error_code
    then (if is_ok (from_rpc_status response.status)
        then from_value (record {
          chunk_id = record { value = response.chunk_id };
          size = response.size;
          checksum = record { algorithm = k_blake3; value = response.checksum };
        })
        else from_status (from_rpc_status response.status))
    else from_status (from_grpc_status grpc)

-- The first frame.
unfoldable pub metadata_frame : PutChunkRequest → PutChunkFrame
metadata_frame request = metadata (record {
  chunk_id = request.chunk_id.value;
  expected_size = request.expected_size;
  expected_checksum = request.expected_checksum.value;
})

module _ (os : Posix) where
  open os use {State, errno, strerror}

  -- MakeStub: the address of the channel.
  unfoldable pub target : WorkerEndpoint → List ℕ
  target endpoint = endpoint.host ++ (b':' ∷ os.to_string endpoint.data_port)

  -- WriteAll: the same code as that of file_chunk_store.cpp.
  unfoldable pub write_data : ℤ → List ℕ → Action os.State Status
  write_data fd bytes = write_all os fd bytes

  -- The lambda `fail`, then ~UniqueFd on the emptied owner.
  unfoldable pub fail : FilePath → UniqueFd → Status → Action State Status
  fail destination owner st = do
    emptied ← destroy os owner
    call (os.unlink destination)
    destroy os emptied
    pure st

  -- GetChunk from the test of write_status on.
  unfoldable pub finish_download : FilePath → ℤ → Status → GrpcStatus → Action State Status
  finish_download destination fd write_status grpc =
      if is_ok write_status
      then (if is_grpc_ok grpc.error_code
          then (do
            synced ← call (os.fdatasync fd)
            e ← gets errno
            if synced
                then (do destroy os (unique_fd fd); pure ok)
                else fail destination (unique_fd fd)
                    (status k_io_error (text "fdatasync destination failed: " ++ strerror e)))
          else fail destination (unique_fd fd) (from_grpc_status grpc))
      else fail destination (unique_fd fd) write_status

module _ (os : Posix) {N : Type 0} (stub : WorkerStub N) where
  open os use {State, fs, errno, eexist, strerror}
  open stub use {
    start_put, write_frame, writes_done, finish_put, try_cancel, start_get, read_data, finish_get,
  }

  -- A round of PutChunk's loop with what read has returned: `some` is an early return, `none` a
  -- break. The calls of gRPC leave errno alone.
  unfoldable pub send_round :
      Action (State × N) (Option Status) → Option (List ℕ) → Action (State × N) (Option Status)
  send_round again none = do
    change_second try_cancel
    change_second writes_done
    on_second finish_put
    e ← on_second (λ n. (stub.errno_left n, n))
    pure (some (status k_io_error (text "read source failed: " ++ strerror e)))
  send_round again (some bytes) = if length bytes == 0 then pure none else (do
    taken ← on_second (write_frame (data_bytes bytes))
    if taken then again else pure none)

  -- `while (true)`
  unfoldable pub send_loop : ℕ → ℤ → Action (State × N) (Option Status)
  unfolding send_round
  send_loop zero fd s = none
  send_loop (suc fuel) fd s =
      (do count ← on_first (read_some os fd k_buffer_size); send_round (send_loop fuel fd) count) s

  -- PutChunk from WritesDone on.
  unfoldable pub finish_upload : Action (State × N) Status
  finish_upload = do
    change_second writes_done
    answer ← on_second finish_put
    pure (call_status answer)

  -- PutChunk after the loop.
  unfoldable pub after_send : Option Status → Action (State × N) Status
  after_send none = finish_upload
  after_send (some st) = pure st

  -- PutChunk with the source open. A round of the loop but the last takes a byte at least.
  unfoldable pub upload : PutChunkRequest → ℤ → Action (State × N) Status
  upload request fd = do
    taken ← on_second (write_frame (metadata_frame request))
    if taken
        then (do
          rounds ← on_first (gets (λ s. rounds_left (fs s) ((fs s).opened fd)))
          end ← send_loop (rounds + 1) fd
          after_send end)
        else (do
          change_second writes_done
          answer ← on_second finish_put
          pure (from_grpc_status answer.0))

  -- PutChunk with the descriptor that open has returned.
  unfoldable pub put_source : WorkerEndpoint → PutChunkRequest → ℤ → Action (State × N) Status
  put_source endpoint request fd =
      if owns (unique_fd fd)
      then (do
        change_second (start_put (target os endpoint))
        st ← upload request fd
        on_first (destroy os (unique_fd fd))
        pure st)
      else (do
        e ← on_first (gets errno)
        pure (status k_io_error (text "open source failed: " ++ strerror e)))

  -- GrpcDataPlaneClient::PutChunk
  unfoldable pub grpc_put : WorkerEndpoint → PutChunkRequest → FilePath → Action (State × N) Status
  grpc_put endpoint request source = do
    fd ← on_first (call (os.open_file source read_only))
    put_source endpoint request fd

  -- A round of GetChunk's loop with the frame that Read has returned; the result is write_status.
  unfoldable pub receive_frame :
      Action (State × N) Status → ℤ → Option (List ℕ) → Action (State × N) Status
  receive_frame again fd none = pure ok
  receive_frame again fd (some bytes) = do
    write_status ← on_first (write_data os fd bytes)
    if is_ok write_status then again else (do change_second try_cancel; pure write_status)

  -- `while (reader->Read(&frame))`
  unfoldable pub receive_frames : ℕ → ℤ → Action (State × N) Status
  unfolding receive_frame
  receive_frames zero fd s = none
  receive_frames (suc fuel) fd s =
      (do frame ← on_second read_data; receive_frame (receive_frames fuel fd) fd frame) s

  -- GetChunk with the destination open. Each round of the loop takes a frame.
  unfoldable pub fetch : WorkerEndpoint → GetChunkRequest → FilePath → ℤ → Action (State × N) Status
  fetch endpoint request destination fd = do
    change_second (
        start_get (target os endpoint) (record {
          chunk_id = request.chunk_id.value;
          offset = request.range.offset;
          size = request.range.size;
        }))
    frames ← on_second (λ n. (stub.frames_left n, n))
    write_status ← receive_frames (frames + 1) fd
    grpc ← on_second finish_get
    on_first (finish_download os destination fd write_status grpc)

  -- GetChunk with the descriptor that open has returned.
  unfoldable pub get_created :
      WorkerEndpoint → GetChunkRequest → FilePath → ℤ → Action (State × N) Status
  get_created endpoint request destination fd =
      if owns (unique_fd fd) then fetch endpoint request destination fd else (do
        e ← on_first (gets errno)
        pure (
            status (if e == eexist then k_already_exists else k_io_error)
              (text "create destination failed: " ++ strerror e)))

  -- GrpcDataPlaneClient::GetChunk
  unfoldable pub grpc_get : WorkerEndpoint → GetChunkRequest → FilePath → Action (State × N) Status
  grpc_get endpoint request destination = do
    fd ← on_first (call (os.open_file destination create_new))
    get_created endpoint request destination fd

  -- GrpcDataPlaneClient::HeadChunk
  unfoldable pub grpc_head :
      WorkerEndpoint → ChunkId → Action (State × N) (StatusOr HeadChunkResponse)
  grpc_head endpoint chunk_id = do
    answer ← on_second (stub.call_head (target os endpoint) chunk_id.value)
    pure (head_result answer)

  -- GrpcDataPlaneClient::DeleteChunk
  unfoldable pub grpc_delete : WorkerEndpoint → ChunkId → Action (State × N) Status
  grpc_delete endpoint chunk_id = do
    answer ← on_second (stub.call_delete (target os endpoint) chunk_id.value)
    pure (call_status answer)

  -- class GrpcDataPlaneClient
  abbrev pub grpc_client : DataPlaneClient os N
  grpc_client = record {
    put_chunk = grpc_put;
    get_chunk = grpc_get;
    head_chunk = grpc_head;
    delete_chunk = grpc_delete;
  }
