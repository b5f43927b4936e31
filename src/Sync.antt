-- ===== src/Sync.antt =====
-- The Lua modules under levent/ with which coroutines wait for one another.
pub mod Queue
pub mod QueueRun
pub mod Fits
pub mod Fifo
pub mod Awake
pub mod AwakeSteps
pub mod Wakeups
pub mod Join
pub mod Semaphore
pub mod Permits
pub mod LockEvent
pub mod Links
pub mod Notified
pub mod Woken
pub mod Single
pub mod Missed
pub mod Rest
pub mod Finished
pub mod AsyncResult
pub mod Settled
pub mod Delivered
mod Examples
mod EventExamples
