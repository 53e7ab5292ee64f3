-- ===== src/Runs.antt =====
-- internal/runs: the service that drives the life of a run, over the database and the executors.
pub mod World
pub mod Join
pub mod Cancel
pub mod Promote
pub mod Poll
pub mod Finalize
pub mod Prepare
pub mod Dispatch
pub mod Dispatcher
