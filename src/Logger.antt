-- ===== src/Logger.antt =====
-- The logger over its ring: entries, sinks, the three ways to log, and the worker that drains
-- (include/oneplog/logger.hpp, internal/log_entry.hpp, internal/logger_config.hpp,
-- internal/static_formats.hpp).
pub mod Entry
pub mod Sinks
pub mod Log
pub mod Levels
pub mod Worker
pub mod Drain
pub mod System
pub mod AsyncSync
pub mod Loop
pub mod LoopHolds
pub mod Completion
pub mod Lifecycle
pub mod Served
pub mod Flush
pub mod FlushHolds
mod Tests
mod ThreadTests
