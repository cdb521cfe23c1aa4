-- ===== src/Programs/Client/CommandLine.antt =====
-- main of src/client/client_main.cpp from its first line on. CLI11, which is not in the repository,
-- is a parameter: it gets what main has told it, and the command line.
use distributed_cache_system.Prelude.{ℕ, List, [], ◌∷◌, text}
use distributed_cache_system.Prelude.Action.{Action, pure}
use distributed_cache_system.Types.{WorkerEndpoint}
use distributed_cache_system.Posix.{Posix}
use distributed_cache_system.Blake3.{Blake3}
use distributed_cache_system.Client.Stub.{WorkerStub}
use distributed_cache_system.Programs.Client.{Command, Finished, client_main}

-- The variables of the options: worker_host, worker_control_port and worker_data_port.
pub record Options : Type 0 where
  pub worker_host : List ℕ
  pub worker_control_port : ℕ
  pub worker_data_port : ℕ

-- Their initial values.
unfoldable pub initial_options : Options
initial_options = record {
  worker_host = text "127.0.0.1";
  worker_control_port = 50052;
  worker_data_port = 50052;
}

-- add_option of the app: name and description, in the order of the variables.
unfoldable pub option_names : List (List ℕ × List ℕ)
option_names =
    (text "--worker-host", text "Worker host")
    ∷ (text "--worker-control-port", text "Worker control port")
    ∷ (text "--worker-data-port", text "Worker data port")
    ∷ []

-- add_subcommand: name, description, and the names of the options, all of which are required.
pub record Subcommand : Type 0 where
  pub name : List ℕ
  pub description : List ℕ
  pub required : List (List ℕ)

unfoldable pub subcommands : List Subcommand
subcommands =
    record {
      name = text "put";
      description = text "Store an immutable object";
      required = text "object-id" ∷ text "source" ∷ [];
    }
    ∷ record {
      name = text "get";
      description = text "Download an object";
      required = text "object-id" ∷ text "destination" ∷ [];
    }
    ∷ record {
      name = text "head";
      description = text "Show object metadata";
      required = text "object-id" ∷ [];
    }
    ∷ record {
      name = text "delete";
      description = text "Delete an object";
      required = text "object-id" ∷ [];
    }
    ∷ []

-- CLI11_PARSE: the macro returns from main with the exit code of an error, which it has written,
-- or the variables have their values.
pub data ParsedCommand : Type 0 where
  leaves : Finished → ParsedCommand
  goes_on : Options → Command → ParsedCommand

-- CLI::App with its description, its options with the values of their variables, and its
-- subcommands, of which require_subcommand(1) asks for one.
pub record ClientCli : Type 0 where
  pub parse :
      List ℕ
      → List (List ℕ × List ℕ)
      → Options
      → List Subcommand
      → ℕ
      → List (List ℕ)
      → ParsedCommand

-- The address that main gives to StorageClient.
unfoldable pub endpoint_of : Options → WorkerEndpoint
endpoint_of options = record {
  host = options.worker_host;
  control_port = options.worker_control_port;
  data_port = options.worker_data_port;
}

module _ (os : Posix) (b : Blake3) {N : Type 0} (stub : WorkerStub N) where
  -- main after CLI11_PARSE.
  unfoldable pub after_parse : ParsedCommand → Action ((os.State × N) × ℕ) Finished
  unfolding endpoint_of
  after_parse (leaves finished) = pure finished
  after_parse (goes_on options command) = client_main os b stub (endpoint_of options) command

  -- main
  unfoldable pub client_program : ClientCli → List (List ℕ) → Action ((os.State × N) × ℕ) Finished
  unfolding initial_options option_names subcommands after_parse
  client_program cli argv = after_parse (
      cli.parse (text "V1 single-worker storage client") option_names initial_options subcommands 1
        argv)
