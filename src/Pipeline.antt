-- ===== src/Pipeline.antt =====
-- `PipelineThread` (include/oneplog/internal/pipeline_thread.hpp): from the ring of a process to
-- the ring in shared memory.
pub mod Forward
pub mod Message
pub mod Thread
pub mod Drain
pub mod Trace
pub mod Reach
pub mod Available
pub mod ThreadHolds
pub mod Tests
mod ThreadTests
