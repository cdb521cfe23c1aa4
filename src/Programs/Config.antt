-- ===== src/Programs/Config.antt =====
-- include/storage/common/config.h and src/common/config.cpp. CLI11, which parses the command line, is
-- not in the repository: it is a parameter.
pub mod Flags
use distributed_cache_system.Prelude.{
  ℕ, Bool, true, false, not, List, [], ◌∷◌, if◌then◌else◌, text, String,
}
use distributed_cache_system.Status.{
  Status, ok, status, is_ok, StatusOr, from_status, from_value, k_invalid_argument,
}
use distributed_cache_system.Types.{WorkerId, valid}

-- What CLI::App::parse comes to: CLI::ParseError with what(), or the variables of the options, by
-- the options' names.
pub data Parsed : Type 0 where
  parse_error : List ℕ → Parsed
  parsed : (List ℕ → List ℕ) → Parsed

-- CLI::App: a description, the options with the values that their variables have, and argv.
pub record Cli : Type 0 where
  pub parse : List ℕ → List (List ℕ × List ℕ) → List (List ℕ) → Parsed

-- struct ControlConfig
pub record ControlConfig : Type 0 where
  pub listen_address : List ℕ

-- struct WorkerConfig
pub record WorkerConfig : Type 0 where
  pub worker_id : WorkerId
  pub listen_address : List ℕ
  pub storage_root : List ℕ

-- struct ClientConfig
pub record ClientConfig : Type 0 where
  pub control_address : List ℕ
  pub worker_address : List ℕ

-- Parse
unfoldable pub parse_status : Parsed → Status
unfolding status
parse_status (parse_error what) = status k_invalid_argument what
parse_status (parsed values) = ok

-- LoadControlConfig with the parse.
unfoldable pub control_config : Parsed → StatusOr ControlConfig
unfolding parse_status from_status from_value
control_config (parse_error what) = from_status (parse_status (parse_error what))
control_config (parsed values) = from_value (record { listen_address = values (text "--listen") })

-- LoadWorkerConfig with the parse.
unfoldable pub worker_config : Parsed → StatusOr WorkerConfig
unfolding parse_status from_status from_value status
worker_config (parse_error what) = from_status (parse_status (parse_error what))
worker_config (parsed values) =
    if not (valid (values (text "--worker-id")))
    then from_status (status k_invalid_argument (text "--worker-id cannot be empty"))
    else from_value (record {
      worker_id = record { value = values (text "--worker-id") };
      listen_address = values (text "--listen");
      storage_root = values (text "--storage-root");
    })

-- LoadClientConfig with the parse.
unfoldable pub client_config : Parsed → StatusOr ClientConfig
unfolding parse_status from_status from_value
client_config (parse_error what) = from_status (parse_status (parse_error what))
client_config (parsed values) = from_value (record {
  control_address = values (text "--control");
  worker_address = values (text "--worker");
})

-- The option of LoadControlConfig, with the default of ControlConfig.
abbrev pub control_options : List (List ℕ × List ℕ)
control_options = (text "--listen", text "127.0.0.1:50051") ∷ []

-- The options of LoadWorkerConfig, with the defaults of WorkerConfig.
abbrev pub worker_options : List (List ℕ × List ℕ)
worker_options =
    (text "--listen", text "127.0.0.1:50052")
    ∷ (text "--worker-id", text "worker-v0")
    ∷ (text "--storage-root", text "./worker-data")
    ∷ []

-- The options of LoadClientConfig, with the defaults of ClientConfig.
abbrev pub client_options : List (List ℕ × List ℕ)
client_options =
    (text "--control", text "127.0.0.1:50051") ∷ (text "--worker", text "127.0.0.1:50052") ∷ []

module _ (cli : Cli) (argv : List (List ℕ)) where
  -- LoadControlConfig
  unfoldable pub load_control_config : StatusOr ControlConfig
  unfolding control_config
  load_control_config =
      control_config (cli.parse (text "Storage control plane") control_options argv)

  -- LoadWorkerConfig
  unfoldable pub load_worker_config : StatusOr WorkerConfig
  unfolding worker_config
  load_worker_config = worker_config (cli.parse (text "Storage worker") worker_options argv)

  -- LoadClientConfig
  unfoldable pub load_client_config : StatusOr ClientConfig
  unfolding client_config
  load_client_config = client_config (cli.parse (text "Storage health client") client_options argv)
