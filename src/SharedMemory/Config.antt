-- ===== src/SharedMemory/Config.antt =====
-- `SharedLoggerConfig` (include/oneplog/internal/shared_memory.hpp), each operation as one step; the
-- version is a 32-bit counter.
use oneplog.Prelude.{ℕ, ◌+◌, ◌%◌, ◌^◌}
use oneplog.Common.Level.{Level, info}

pub record SharedLoggerConfig : Type 0 where
  pub log_level : Level
  pub config_version : ℕ

unfoldable pub init_config : SharedLoggerConfig → SharedLoggerConfig
init_config c = record { log_level = info; config_version = 0 }

unfoldable pub get_level : SharedLoggerConfig → Level
get_level c = c.log_level

unfoldable pub set_level : Level → SharedLoggerConfig → SharedLoggerConfig
set_level l c = record { log_level = l; config_version = (c.config_version + 1) % 2 ^ 32 }

unfoldable pub get_version : SharedLoggerConfig → ℕ
get_version c = c.config_version
