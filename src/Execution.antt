-- ===== src/Execution.antt =====
-- The execution of a job: the executor, the retry service and the worker.
pub mod Backoff
pub mod Publisher
pub mod Heartbeat
pub mod Retry
pub mod Executor
pub mod Versions
pub mod Failures
pub mod Branches
