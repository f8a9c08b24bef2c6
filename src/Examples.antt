-- ===== src/Examples.antt =====
-- Concrete runs, schedules and releases, to which the theorems about the code apply.
mod Runs
mod Requests
mod Dispatching
mod Enqueuing
mod Releases
mod Schedules
mod Deployments
mod Services
mod Snapshots
mod Agents
