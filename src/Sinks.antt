-- ===== src/Sinks.antt =====
-- The sinks that write to files and rotate them, and the other sinks with virtual functions
-- (include/oneplog/internal/static_formats.hpp and include/oneplog/sinks/sink.hpp).
pub mod Files
pub mod Static
pub mod Stream
pub mod Backups
pub mod Pack
pub mod Sizes
pub mod Family
pub mod StaticPacks
pub mod StaticFiles
pub mod StreamPacks
pub mod Agree
mod Tests
