-- ===== src/Formats.antt =====
-- The formats with a header (include/oneplog/internal/static_formats.hpp), without fmt.
pub mod Text
pub mod Static
pub mod Width
pub mod Clean
pub mod Uncut
pub mod Shown
mod Tests
