-- ===== src/Mproc.antt =====
-- Several processes that log through one ring in shared memory (include/oneplog/logger.hpp).
pub mod Worker
pub mod Pending
pub mod Join
pub mod Stop
pub mod Messages
pub mod Delivery
pub mod Flush
pub mod DueRound
pub mod FlushRound
pub mod FlushHolds
mod Tests
