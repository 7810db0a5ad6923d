-- ===== src/Async.antt =====
-- async/: the event that coroutines wait for, and what runs them.
pub mod Event
pub mod ThreadPool
pub mod WhenAll
pub mod TaskContainer
pub mod Task
pub mod SyncWait
mod Tests
