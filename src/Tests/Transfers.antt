-- ===== src/Tests/Transfers.antt =====
-- A transfer between two systems in memory.
use distributed_cache_system.Prelude.{
  ℕ, ◌<◌, ◌^◌, ◌≡◌, refl, true, Option, none, some, List, [], ◌∷◌, length, arith,
}
use mathlib.Core.Option.{some-injective}
use distributed_cache_system.Prelude.Maps.{update}
use distributed_cache_system.Prelude.Tests.{same_bytes}
use distributed_cache_system.Status.{ok, Status, is_ok, from_value}
use distributed_cache_system.Types.{validate_checksum, ObjectId, GetChunkRequest, WorkerEndpoint}
use distributed_cache_system.Posix.{FilePath, path_eq, nat_eq, int_eq}
use distributed_cache_system.Rpc.Codes.{from_rpc_status, set_status, grpc_status_ok}
use distributed_cache_system.Rpc.Streams.{rpc_read, take_frame, take_data}
use distributed_cache_system.Rpc.DataPlane.{put_chunk}
use distributed_cache_system.Rpc.Service.{request_of, put_first, put_rpc}
use distributed_cache_system.Client.HashFile.{hash_file, hash_opened, hash_loop, hash_result}
use distributed_cache_system.Client.Reads.{read_some}
use distributed_cache_system.Worker.Names.{finalize_hex, validate_id, temp_path, path_for}
use distributed_cache_system.Worker.Calls.{write_all}
use distributed_cache_system.Worker.Header.{make_header}
use distributed_cache_system.Worker.FileChunkStore.Put.{put}
use distributed_cache_system.Client.Grpc.{
  target, call_status, head_result, put_source, send_loop, after_send, finish_upload,
  metadata_frame, grpc_put, grpc_get, grpc_client,
}
use distributed_cache_system.Client.Storage.{to_chunk_id, client_put}
use distributed_cache_system.Tests.Memory.{Memory, fs, next_fd, next_file, memory}
use distributed_cache_system.Tests.Inputs.{toy_hash, request, empty}
use distributed_cache_system.Tests.Loopback.{Channel, loopback}

-- A client with one file, "hi!", and a worker without any.
abbrev pub source : FilePath
source = record { directory = b'd' ∷ []; filename = b's' ∷ [] }

abbrev pub destination : FilePath
destination = record { directory = b'd' ∷ []; filename = b't' ∷ [] }

abbrev pub greeting : List ℕ
greeting = b'h' ∷ b'i' ∷ b'!' ∷ []

abbrev pub with_source : Memory
with_source = record empty { entries = (source, some 0) ∷ []; files = (0, greeting) ∷ [] }

abbrev pub idle : Channel
idle = record { worker = empty; sent = []; received = []; finished = grpc_status_ok }

abbrev pub to : WorkerEndpoint
to = record { host = b'h' ∷ []; control_port = 50052; data_port = 50052 }

abbrev pub object : ObjectId
object = record { value = b'k' ∷ [] }

abbrev pub whole_chunk : GetChunkRequest
whole_chunk = record { chunk_id = request.chunk_id; range = record { offset = 0; size = 3 } }

-- The only file is the greeting.
pub small :
    (i : ℕ) → (fs with_source).entry source ≡ some i → length ((fs with_source).bytes i) < 2 ^ 64
unfolding update same_bytes
small i named = let zero_file : 0 ≡ i = some-injective _ _ named in rw (← zero_file) (omega arith)

-- Put over the channel succeeds, and the worker's first file is then under the final name.
abbrev result_or : {A : Type 0} → A → Option A → A
result_or x none = x
result_or x (some y) = y

unfoldable pub put_end : Status × (Memory × Channel)
unfolding client_put
put_end =
    result_or (ok, (with_source, idle))
      (client_put memory toy_hash (grpc_client memory loopback) to object source
        (with_source, idle))

pub put_end_is_ok : is_ok put_end.0 ≡ true
unfolding put_end client_put next_file to_chunk_id from_value hash_file read_some update same_bytes
    next_fd finalize_hex grpc_put put_source distributed_cache_system.Client.Grpc.upload send_loop
    after_send finish_upload metadata_frame call_status put_rpc put_first request_of put_chunk put
    validate_id validate_checksum write_all make_header temp_path path_for rpc_read take_frame
    take_data from_rpc_status set_status hash_opened hash_loop hash_result target
put_end_is_ok = refl

pub put_end_runs :
    client_put memory toy_hash (grpc_client memory loopback) to object source (with_source, idle)
    ≡ some (put_end.0, put_end.1)
unfolding put_end client_put next_file to_chunk_id from_value hash_file read_some update same_bytes
    next_fd finalize_hex grpc_put put_source distributed_cache_system.Client.Grpc.upload send_loop
    after_send finish_upload metadata_frame call_status put_rpc put_first request_of put_chunk put
    validate_id validate_checksum write_all make_header temp_path path_for rpc_read take_frame
    take_data from_rpc_status set_status hash_opened hash_loop hash_result target
put_end_runs = refl

pub source_named : (fs with_source).entry source ≡ some 0
unfolding update same_bytes
source_named = refl
