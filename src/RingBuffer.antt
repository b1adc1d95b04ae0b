-- ===== src/RingBuffer.antt =====
-- The ring buffer of include/oneplog/internal/heap_memory.hpp: slots, shared state, the operations
-- of producers and of the consumer, and what they keep.
pub mod Slot
pub mod State
pub mod Acquire
pub mod Push
pub mod Pop
pub mod Wait
pub mod Inv
pub mod Claim
pub mod Queue
pub mod PushSmall
pub mod PushPolicy
pub mod PushWait
pub mod PopRefines
pub mod Wfc
pub mod ShadowTail
pub mod ShadowPush
pub mod WaitKeeps
pub mod WakeUp
mod Tests
