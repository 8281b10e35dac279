-- ===== src/Retry.antt =====
-- internal/retry: the payment simulator, the engine and the scheduler, over one state.
pub mod World
pub mod Simulator
pub mod Submit
pub mod Execute
pub mod History
pub mod Batch
pub mod Scheduler
pub mod Concurrent
