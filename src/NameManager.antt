-- ===== src/NameManager.antt =====
-- The names of the process and of its threads (include/oneplog/name_manager.hpp and
-- include/oneplog/internal/optimized_name_manager.hpp), over the name tables.
pub mod Global
pub mod Optimized
pub mod Lookup
pub mod ThreadIds
pub mod Logged
pub mod Plain
pub mod Twins
pub mod TwinRuns
mod Tests
