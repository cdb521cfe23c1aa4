-- ===== src/Programs/Servers.antt =====
-- src/control/control_main.cpp and src/worker/worker_main.cpp. The gRPC server and the log's lines are
-- parameters: the server is the call of BuildAndStart, and Wait where it has started.
use distributed_cache_system.Prelude.{
  ℕ, Bool, Option, none, some, List, [], ◌∷◌, ◌++◌, if◌then◌else◌, text,
}
use distributed_cache_system.Status.{Status, is_ok}
use distributed_cache_system.Posix.{Posix}
use distributed_cache_system.Blake3.{Blake3}
use distributed_cache_system.Rpc.DataPlane.{file_chunk_store}
use distributed_cache_system.Rpc.Service.Classes.{
  ControlPlaneService, control_plane_service, WorkerService, worker_service,
}
use distributed_cache_system.Programs.Config.{
  Cli, ControlConfig, WorkerConfig, load_control_config, load_worker_config,
}
use distributed_cache_system.Programs.Logging.{Spdlog, default_options, init_logging}

-- What a server's main comes to: an exit code with the log's lines, or spdlog's exception.
pub data Exit : Type 0 where
  exited : ℕ → List (List ℕ) → Exit
  threw : Exit

-- The service that RegisterService gets.
pub data Registered (S : Type 0) : Type 1 where
  control_plane : ControlPlaneService → Registered S
  worker : WorkerService S → Registered S

module _ (os : Posix) (b : Blake3) (cli : Cli) (log : Spdlog)
    (starts : List ℕ → Registered os.State → Bool) (argv : List (List ℕ)) where
  -- The control plane's main from LoadControlConfig on.
  unfoldable pub serve_control : Status → Option ControlConfig → Exit
  serve_control failure none =
      exited 1 ((text "invalid control-plane configuration: " ++ failure.message) ∷ [])
  serve_control failure (some config) =
      if starts config.listen_address (control_plane control_plane_service)
      then exited 0 ((text "control-plane listening on " ++ config.listen_address) ∷ [])
      else exited 1 ((text "failed to start control-plane on " ++ config.listen_address) ∷ [])

  -- main of control_main.cpp, with what InitLogging has done.
  unfoldable pub control_logged : Option (Status × log.Registry) → Exit
  unfolding serve_control
  control_logged none = threw
  control_logged (some (st, registry)) =
      let config = load_control_config cli argv in
      if is_ok st then serve_control config.held_status config.held_value else exited 1 []

  unfoldable pub control_main : log.Registry → Exit
  unfolding control_logged
  control_main registry = control_logged (init_logging log default_options registry)

  -- The worker's main from LoadWorkerConfig on.
  unfoldable pub serve_worker : Status → Option WorkerConfig → Exit
  serve_worker failure none =
      exited 1 ((text "invalid worker configuration: " ++ failure.message) ∷ [])
  serve_worker failure (some config) =
      if starts config.listen_address
        (worker (worker_service (file_chunk_store os b config.storage_root)))
      then exited 0 (
          (text "worker "
            ++ (config.worker_id.value ++ (text " listening on " ++ config.listen_address)))
          ∷ (text "worker storage root: " ++ config.storage_root)
          ∷ [])
      else exited 1 ((text "failed to start worker on " ++ config.listen_address) ∷ [])

  -- main of worker_main.cpp, with what InitLogging has done.
  unfoldable pub worker_logged : Option (Status × log.Registry) → Exit
  unfolding serve_worker
  worker_logged none = threw
  worker_logged (some (st, registry)) =
      let config = load_worker_config cli argv in
      if is_ok st then serve_worker config.held_status config.held_value else exited 1 []

  unfoldable pub worker_main : log.Registry → Exit
  unfolding worker_logged
  worker_main registry = worker_logged (init_logging log default_options registry)
