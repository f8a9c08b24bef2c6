-- ===== src/Agent.antt =====
-- The agent on a node: internal/agent and adapter/grpc/agent/client.go.
pub mod Containers
pub mod Host
pub mod Index
pub mod Checks
pub mod Health
pub mod Cleanup
pub mod Diagnosis
pub mod Existing
pub mod Executor
pub mod Client
pub mod Runs
pub mod Clock
pub mod Waits
pub mod Calm
pub mod Reported
pub mod Removals
pub mod Spared
pub mod Leaves
pub mod Healthy
pub mod Deployed
pub mod Lookup
pub mod Failure
