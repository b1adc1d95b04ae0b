-- ===== src/SharedMemory.antt =====
-- The segment that processes share (include/oneplog/internal/shared_memory.hpp): its layout and its
-- name table.
pub mod Layout
pub mod Regions
pub mod Names
pub mod NamesSpec
pub mod NameEntry
pub mod NamesRefine
pub mod NamesHeld
pub mod NamesTwice
pub mod Segment
pub mod Config
pub mod Release
pub mod Access
mod Tests
