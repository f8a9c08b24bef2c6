-- ===== src/Scheduler.antt =====
-- The scheduling centre: internal/scheduler. `Statements` are the conditional updates of the run
-- table in infra/repository.go, `Lease` the arithmetic of retries and leases, `Runs` the operations
-- of application/service.go on one run, `Enqueue` how a job becomes a run, `Pick` and `Dispatch`
-- how a run reaches an executor. `Lifecycle` is the relation of a run's changes, `Moves` and
-- `Dispatched` show that the operations follow it, `Ownership` what they answer, `EnqueueLaws` what
-- a due job leaves, and `PickLaws` which executor is picked.
pub mod Statements
pub mod Lease
pub mod Pick
pub mod PickLaws
pub mod Dispatch
pub mod Enqueue
pub mod EnqueueLaws
pub mod Runs
pub mod Lifecycle
pub mod Moves
pub mod Requests
pub mod Dispatched
pub mod Ownership
