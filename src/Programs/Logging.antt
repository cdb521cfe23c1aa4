-- ===== src/Programs/Logging.antt =====
-- include/storage/common/logging.h and src/common/logging.cpp. spdlog, which keeps the loggers, is not
-- in the repository: it is a parameter.
use distributed_cache_system.Prelude.{
  ℕ, Bool, not, ◌&&◌, Option, none, some, List, ◌++◌, if◌then◌else◌, text, same_bytes,
}
use distributed_cache_system.Status.{Status, ok, status, k_invalid_argument}

-- enum class LogDestination
pub data LogDestination : Type 0 where
  k_stdout k_stderr : LogDestination

-- struct LoggingOptions
pub record LoggingOptions : Type 0 where
  pub level : List ℕ
  pub pattern : List ℕ
  pub destination : LogDestination

-- LoggingOptions{}
unfoldable pub default_options : LoggingOptions
default_options = record {
  level = text "info";
  pattern = text "[%Y-%m-%d %H:%M:%S.%e] [%l] %v";
  destination = k_stderr;
}

-- What the code calls of spdlog, over its registry of loggers.
pub record Spdlog : Type 1 where
  pub Registry : Type 0
  pub Logger : Type 0
  pub Level : Type 0
  pub from_str : List ℕ → Level
  -- `level == spdlog::level::off`
  pub is_off : Level → Bool
  -- The factories throw, which is `none`, where the name is taken.
  pub stdout_color_mt : List ℕ → Registry → Option (Logger × Registry)
  pub stderr_color_mt : List ℕ → Registry → Option (Logger × Registry)
  pub set_default_logger : Logger → Registry → Registry
  pub set_level : Level → Registry → Registry
  pub set_pattern : List ℕ → Registry → Registry

module _ (log : Spdlog) where
  open log use {
    Registry, Logger, Level, from_str, is_off, stdout_color_mt, stderr_color_mt, set_default_logger,
    set_level, set_pattern,
  }

  -- The logger "storage" of a destination.
  unfoldable pub make_logger : LogDestination → Registry → Option (Logger × Registry)
  make_logger k_stdout r = stdout_color_mt (text "storage") r
  make_logger k_stderr r = stderr_color_mt (text "storage") r

  -- InitLogging once the logger is there; `none` is the exception of spdlog.
  unfoldable pub install_logger :
      LoggingOptions → Option (Logger × Registry) → Option (Status × Registry)
  install_logger options none = none
  install_logger options (some (logger, r)) = some (
    ok,
    set_pattern options.pattern (set_level (from_str options.level) (set_default_logger logger r)),
  )

  -- InitLogging
  unfoldable pub init_logging : LoggingOptions → Registry → Option (Status × Registry)
  unfolding make_logger install_logger status
  init_logging options r =
      if is_off (from_str options.level) && not (same_bytes options.level (text "off"))
      then some (status k_invalid_argument (text "unknown log level: " ++ options.level), r)
      else install_logger options (make_logger options.destination r)
