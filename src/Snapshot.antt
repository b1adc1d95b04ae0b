-- ===== src/Snapshot.antt =====
-- `BinarySnapshot` (include/oneplog/internal/binary_snapshot.hpp): log arguments in a 256-byte
-- buffer, formatted later, possibly by another process.
pub mod Bytes
pub mod Capture
pub mod Format
pub mod Convert
pub mod Layout
pub mod CaptureOne
pub mod CaptureHolds
pub mod Payload
pub mod FormatHolds
pub mod FormatAll
pub mod ConvertHolds
pub mod ConvertLoop
pub mod Transfer
pub mod Serialize
mod Tests
