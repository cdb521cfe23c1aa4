-- ===== src/Tests/ServiceExamples.antt =====
-- The theorems on the handlers and on the configuration, applied to concrete calls.
use distributed_cache_system.Prelude.{ℕ, ◌≡◌, refl, true, some, List, [], ◌∷◌}
use distributed_cache_system.Prelude.Tests.{same_bytes, text}
use distributed_cache_system.Prelude.Action.{Ensures, pure}
use distributed_cache_system.Status.{Status, is_ok, k_not_found, from_value}
use distributed_cache_system.Status.Laws.{of_value}
use distributed_cache_system.Types.{HeadChunkResponse}
use distributed_cache_system.Posix.{path_eq, nat_eq, int_eq}
use distributed_cache_system.Rpc.Codes.{from_grpc_status}
use distributed_cache_system.Rpc.Codes.RoundTrip.{IsNormal}
use distributed_cache_system.Rpc.Messages.{GetMessage}
use distributed_cache_system.Rpc.Streams.{PutChunkFrame, metadata, data_bytes, Writer}
use distributed_cache_system.Rpc.DataPlane.{ChunkStore, get_chunk, head_chunk, delete_chunk}
use distributed_cache_system.Rpc.Service.{put_rpc, get_rpc, head_rpc, delete_rpc}
use distributed_cache_system.Rpc.Service.Upload.{Stored, put_rpc-Stored}
use distributed_cache_system.Rpc.Service.Answers.{answers-results}
use distributed_cache_system.Client.Grpc.{call_status, head_result}
use distributed_cache_system.Programs.Config.{
  Cli, parsed, load_control_config, load_worker_config, load_client_config,
}
use distributed_cache_system.Programs.Config.Flags.{
  default_of, read_option, IsCli, load_config-read_option,
}
use distributed_cache_system.Wire.{frames_reader}
use distributed_cache_system.Tests.Memory.{fs, memory}
use distributed_cache_system.Tests.Memory.Documented.{memory-IsDocumented}
use distributed_cache_system.Tests.Inputs.{toy_hash, toy_hash-IsBlake3, request, root, empty}
use distributed_cache_system.Tests.Loopback.{store}

abbrev upload_frames : List PutChunkFrame
upload_frames =
    metadata (record {
      chunk_id = request.chunk_id.value;
      expected_size = request.expected_size;
      expected_checksum = request.expected_checksum.value;
    })
    ∷ data_bytes (b'h' ∷ b'i' ∷ [])
    ∷ data_bytes (b'!' ∷ [])
    ∷ []

put_rpc-Stored_example :
    Ensures (put_rpc frames_reader (some store) 9 (empty, upload_frames)) (λ answer t.
      is_ok (call_status answer) ≡ true
      → Stored toy_hash root frames_reader (fs empty) upload_frames (fs t.0))
put_rpc-Stored_example =
    put_rpc-Stored memory memory-IsDocumented toy_hash toy_hash-IsBlake3 root 9 frames_reader empty
      upload_frames

-- A store of one chunk that is never there for Get and Delete.
abbrev one_chunk : HeadChunkResponse
one_chunk = record { chunk_id = request.chunk_id; size = 3; checksum = request.expected_checksum }

abbrev missing : Status
missing = record { code = k_not_found; message = b'?' ∷ [] }

abbrev stub_store : ChunkStore Unit
stub_store = record {
  store_put = λ input address request. pure missing;
  store_get = λ output request. pure missing;
  store_head = λ chunk_id. pure (from_value one_chunk);
  store_delete = λ chunk_id. pure missing;
}

abbrev discarding : Writer Unit
discarding = record { write = λ bytes v. (true, v) }

abbrev range_message : GetMessage
range_message = record { chunk_id = request.chunk_id.value; offset = 0; size = 3 }

missing-IsNormal : IsNormal missing
missing-IsNormal = λ h. cc

answers-results_example :
    Ensures
      (head_rpc (some stub_store) request.chunk_id.value tt)
      (λ answer x. (head_result answer ≡ from_value one_chunk) × (x ≡ tt))
    × Ensures
        (delete_rpc (some stub_store) request.chunk_id.value tt)
        (λ answer x. (call_status answer ≡ missing) × (x ≡ tt))
    × Ensures
        (get_rpc discarding (some stub_store) range_message (tt, tt))
        (λ answer x. (from_grpc_status answer ≡ missing) × (x ≡ (tt, tt)))
unfolding head_chunk delete_chunk get_chunk
answers-results_example =
    answers-results stub_store discarding tt tt request.chunk_id.value range_message
      (from_value one_chunk) missing missing tt tt (tt, tt) refl (of_value one_chunk refl) refl
      missing-IsNormal refl missing-IsNormal

abbrev tail : List (List ℕ) → List (List ℕ)
tail [] = []
tail (program ∷ args) = args

-- A command line that is read as is_command_line describes it.
abbrev reading : Cli
reading = record {
  parse =
      λ app options argv. parsed (λ name. read_option name (default_of name options) (tail argv));
}

reading-IsCli : IsCli reading
reading-IsCli app program options args flags h = (_, refl, λ name there. refl)

abbrev worker_line : List (List ℕ)
worker_line = text "--storage-root" ∷ text "/data" ∷ text "--listen" ∷ text "0.0.0.0:9" ∷ []

load_config-read_option_example :
    (load_control_config reading (text "storage" ∷ [])
      ≡ from_value (record { listen_address = text "127.0.0.1:50051" }))
    × (load_worker_config reading (text "storage" ∷ worker_line)
        ≡ from_value (record {
          worker_id = record { value = text "worker-v0" };
          listen_address = text "0.0.0.0:9";
          storage_root = text "/data";
        }))
    × (load_client_config reading (text "storage" ∷ text "--worker" ∷ text "w:1" ∷ [])
        ≡ from_value
            (record { control_address = text "127.0.0.1:50051"; worker_address = text "w:1" }))
unfolding text same_bytes
load_config-read_option_example =
    load_config-read_option reading reading-IsCli (text "storage") [] worker_line
      (text "--worker" ∷ text "w:1" ∷ []) refl refl refl
