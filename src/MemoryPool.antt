-- ===== src/MemoryPool.antt =====
-- `MemoryPool` (include/oneplog/internal/memory_pool.hpp): the free list that threads share, each
-- atomic access as one step.
pub mod Pool
pub mod Chain
pub mod Stack
pub mod System
pub mod Invariant
pub mod Moves
pub mod HandOver
pub mod Ownership
pub mod Aba
mod Tests
