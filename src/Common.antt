-- ===== src/Common.antt =====
-- The core types of include/oneplog/common.hpp: levels, modes and error codes, and their names.
pub mod Level
pub mod ErrorCode
mod Tests
