-- ===== src/Programs/Client.antt =====
-- src/client/client_main.cpp. CLI11 is a parameter: what it makes of the command line is given.
pub mod Exits
pub mod CommandLine
use distributed_cache_system.Prelude.{
  ℕ, Bool, true, false, Option, none, some, List, [], ◌∷◌, ◌++◌, if◌then◌else◌, text, String,
}
use distributed_cache_system.Prelude.Action.{Action, pure, ◌>>=◌, on_first}
use distributed_cache_system.Status.{Status, is_ok}
use distributed_cache_system.Types.{ObjectId, HeadChunkResponse, WorkerEndpoint}
use distributed_cache_system.Posix.{FilePath, Posix}
use distributed_cache_system.Blake3.{Blake3}
use distributed_cache_system.Client.Stub.{WorkerStub}
use distributed_cache_system.Client.Grpc.{grpc_client}
use distributed_cache_system.Client.Storage.{client_put, client_get, client_head, client_delete}

-- The subcommand that CLI11 has found, with its arguments: require_subcommand(1) allows just one.
pub data Command : Type 0 where
  put_object : List ℕ → FilePath → Command
  get_object : List ℕ → FilePath → Command
  head_object : List ℕ → Command
  delete_object : List ℕ → Command

-- The exit code of main, and what it has written to std::cout and std::cerr.
pub record Finished : Type 0 where
  pub exit_code : ℕ
  pub out : List ℕ
  pub err : List ℕ

-- Report
unfoldable pub report : Status → Finished
report st =
    if is_ok st
    then record { exit_code = 0; out = []; err = [] }
    else record { exit_code = 1; out = []; err = text "error: " ++ (st.message ++ (b'\n' ∷ [])) }

module _ (os : Posix) (b : Blake3) {N : Type 0} (stub : WorkerStub N) (to : WorkerEndpoint) where
  -- main's end on `head`, with the response.
  unfoldable pub report_head : List ℕ → Status → Option HeadChunkResponse → Finished
  unfolding report
  report_head object_id failure none = report failure
  report_head object_id failure (some head) = record {
    exit_code = 0;
    out =
        text "object_id="
        ++ (object_id
            ++ (text " size="
                ++ (os.to_string head.size
                    ++ (text " checksum=" ++ (head.checksum.value ++ (b'\n' ∷ []))))));
    err = [];
  }

  -- main after CLI11_PARSE. The counter is StorageClient::Get's next_temp_id.
  unfoldable pub client_main : Command → Action ((os.State × N) × ℕ) Finished
  unfolding report_head report
  client_main (put_object object_id source) = do
    st ← on_first (client_put os b (grpc_client os stub) to (record { value = object_id }) source)
    pure (report st)
  client_main (get_object object_id destination) = do
    st ← client_get os b (grpc_client os stub) to (record { value = object_id }) destination
    pure (report st)
  client_main (delete_object object_id) = do
    st ← on_first (client_delete os b (grpc_client os stub) to (record { value = object_id }))
    pure (report st)
  client_main (head_object object_id) = do
    response ← on_first (client_head os b (grpc_client os stub) to (record { value = object_id }))
    pure (report_head object_id response.held_status response.held_value)
