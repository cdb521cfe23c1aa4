-- ===== src/Programs/Config/Flags.antt =====
-- The configurations of a command line that gives some of the options a value each.
use distributed_cache_system.Prelude.{
  ℕ, ◌≡◌, refl, Bool, Bool-cases, inl, inr, true, false, not, ◌||◌, ◌&&◌, List, [], ◌∷◌, ◌==◌, leb,
  if◌then◌else◌, arith,
}
use distributed_cache_system.Prelude.Tests.{same_bytes, text}
use distributed_cache_system.Status.{from_value}
use distributed_cache_system.Types.{valid}
use distributed_cache_system.Programs.Config.{
  parsed, Cli, control_config, worker_config, client_config, control_options, worker_options,
  client_options, load_control_config, load_worker_config, load_client_config,
}

abbrev within : ℕ → ℕ → ℕ → Bool
within low high c = leb low c && leb c high

-- A letter, a digit or one of "-./:_".
abbrev is_plain_byte : ℕ → Bool
is_plain_byte c = within b'-' b':' c || within b'A' b'Z' c || c == b'_' || within b'a' b'z' c

abbrev are_plain : List ℕ → Bool
are_plain [] = true
are_plain (c ∷ rest) = is_plain_byte c && are_plain rest

-- A word of plain bytes that does not start like a flag.
abbrev pub is_plain : List ℕ → Bool
is_plain [] = false
is_plain (c ∷ rest) = not (c == b'-') && are_plain (c ∷ rest)

abbrev pub names : List (List ℕ × List ℕ) → List (List ℕ)
names [] = []
names ((name, _) ∷ options) = name ∷ names options

abbrev contains : List ℕ → List (List ℕ) → Bool
contains name [] = false
contains name (x ∷ xs) = same_bytes x name || contains name xs

abbrev without : List ℕ → List (List ℕ) → List (List ℕ)
without name [] = []
without name (x ∷ xs) = if same_bytes x name then xs else x ∷ without name xs

-- "--" and a plain word; CLI11 has an option "--help" of its own.
abbrev is_flag_name : List ℕ → Bool
is_flag_name (c ∷ d ∷ word) =
    c == b'-' && (d == b'-' && (is_plain word && not (same_bytes word (text "help"))))
is_flag_name _ = false

abbrev are_flag_names : List (List ℕ) → Bool
are_flag_names [] = true
are_flag_names (name ∷ rest) =
    is_flag_name name && (not (contains name rest) && are_flag_names rest)

-- Flags of these names, none twice, with a plain value each.
abbrev pub is_command_line : List (List ℕ) → List (List ℕ) → Bool
is_command_line flags [] = true
is_command_line flags (given ∷ value ∷ args) =
    contains given flags && (is_plain value && is_command_line (without given flags) args)
is_command_line flags _ = false

abbrev pub default_of : List ℕ → List (List ℕ × List ℕ) → List ℕ
default_of name [] = []
default_of name ((x, value) ∷ options) =
    if same_bytes x name then value else default_of name options

-- What follows the flag, or the default where the flag is not given.
abbrev pub read_option : List ℕ → List ℕ → List (List ℕ) → List ℕ
read_option name default (given ∷ value ∷ args) =
    if same_bytes given name then value else read_option name default args
read_option name default _ = default

-- CLI11 sets the variable of an option to the argument after its flag, and leaves the variable of an
-- option that is not given as it was.
abbrev pub IsCli : Cli → Type 0
IsCli cli =
    (app program : List ℕ) (options : List (List ℕ × List ℕ)) (args : List (List ℕ))
    → are_flag_names (names options) ≡ true
    → is_command_line (names options) args ≡ true
    → (values : (List ℕ → List ℕ)) × (cli.parse app options (program ∷ args) ≡ parsed values)
      × ((name : List ℕ)
          → contains name (names options) ≡ true
          → values name ≡ read_option name (default_of name options) args)

valid_of_plain : (value : List ℕ) → is_plain value ≡ true → valid value ≡ true
valid_of_plain [] h = cc
valid_of_plain (c ∷ rest) h = refl

read_option-valid :
    (name default : List ℕ) (flags args : List (List ℕ))
    → valid default ≡ true
    → is_command_line flags args ≡ true
    → valid (read_option name default args) ≡ true
read_option-valid name default flags [] there h = there
read_option-valid name default flags (given ∷ []) there h = there
read_option-valid name default flags (given ∷ value ∷ args) there h =
    let rest = read_option-valid name default (without given flags) args there (grind arith) in
    elim (Bool-cases (same_bytes given name)) [
      | inl same ↦ rw same (valid_of_plain value (grind arith))
      | inr other ↦ rw other rest
    ]

module _ (cli : Cli) (reads : IsCli cli) (program : List ℕ) (args : List (List ℕ)) where
  control_config_lem :
      is_command_line (names control_options) args ≡ true
      → load_control_config cli (program ∷ args)
        ≡ from_value (record {
          listen_address = read_option (text "--listen") (text "127.0.0.1:50051") args;
        })
  unfolding load_control_config control_config text same_bytes
  control_config_lem h =
      let (values, e, given) =
        reads (text "Storage control plane") program control_options args refl h in
      rw (e, control_config, given (text "--listen") refl) refl

  worker_config_lem :
      is_command_line (names worker_options) args ≡ true
      → load_worker_config cli (program ∷ args)
        ≡ from_value (record {
          worker_id = record { value = read_option (text "--worker-id") (text "worker-v0") args };
          listen_address = read_option (text "--listen") (text "127.0.0.1:50052") args;
          storage_root = read_option (text "--storage-root") (text "./worker-data") args;
        })
  unfolding load_worker_config worker_config text same_bytes
  worker_config_lem h =
      let (values, e, given) = reads (text "Storage worker") program worker_options args refl h in
      let there = read_option-valid (text "--worker-id") (text "worker-v0") _ args refl h in
      rw
        (
          e,
          worker_config,
          given (text "--worker-id") refl,
          there,
          given (text "--listen") refl,
          given (text "--storage-root") refl,
        )
        refl

  client_config_lem :
      is_command_line (names client_options) args ≡ true
      → load_client_config cli (program ∷ args)
        ≡ from_value (record {
          control_address = read_option (text "--control") (text "127.0.0.1:50051") args;
          worker_address = read_option (text "--worker") (text "127.0.0.1:50052") args;
        })
  unfolding load_client_config client_config text same_bytes
  client_config_lem h =
      let (values, e, given) =
        reads (text "Storage health client") program client_options args refl h in
      rw (e, client_config, given (text "--control") refl, given (text "--worker") refl) refl

-- With a CLI11 that reads flags and their values as documented: from a command line whose arguments
-- are flags of its options, in any order and none twice, with a plain value each, each
-- configuration function returns OK and a configuration in which every field is the value that
-- follows its own flag, or the documented default where that flag is not given. These are --listen
-- for the control plane; --listen, --worker-id and --storage-root for a worker; --control and
-- --worker for the client.
pub load_config-read_option :
    (cli : Cli) (reads : IsCli cli) (program : List ℕ)
    (control_args worker_args client_args : List (List ℕ))
    → is_command_line (names control_options) control_args ≡ true
    → is_command_line (names worker_options) worker_args ≡ true
    → is_command_line (names client_options) client_args ≡ true
    → (load_control_config cli (program ∷ control_args)
        ≡ from_value (record {
          listen_address = read_option (text "--listen") (text "127.0.0.1:50051") control_args;
        }))
      × (load_worker_config cli (program ∷ worker_args)
          ≡ from_value (record {
            worker_id = record {
              value = read_option (text "--worker-id") (text "worker-v0") worker_args;
            };
            listen_address = read_option (text "--listen") (text "127.0.0.1:50052") worker_args;
            storage_root = read_option (text "--storage-root") (text "./worker-data") worker_args;
          }))
      × (load_client_config cli (program ∷ client_args)
          ≡ from_value (record {
            control_address = read_option (text "--control") (text "127.0.0.1:50051") client_args;
            worker_address = read_option (text "--worker") (text "127.0.0.1:50052") client_args;
          }))
load_config-read_option cli reads program control_args worker_args client_args h h' h'' = (
  control_config_lem cli reads program control_args h,
  worker_config_lem cli reads program worker_args h',
  client_config_lem cli reads program client_args h'',
)
