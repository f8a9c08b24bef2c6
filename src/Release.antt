-- ===== src/Release.antt =====
-- The release orchestration of the control plane: internal/release. `World` is what the service
-- works on, `Traffic` its operations on traffic, `Reported` and `Tasks` the updates that agents
-- report. `Quiet` and `Kept` are rules for sequences of steps; `Terminal`, `Ended`, `Reports` and
-- `Operations` are about releases that have ended, `Zero` about traffic set back to nothing, and
-- `Late` about reports that come late.
pub mod World
pub mod Traffic
pub mod Reported
pub mod Tasks
pub mod Queries
pub mod Deploy
pub mod Start
pub mod Recovery
pub mod Quiet
pub mod Rowwise
pub mod Reads
pub mod Kept
pub mod Busy
pub mod OneBusy
pub mod Calmly
pub mod Started
pub mod Orderly
pub mod Terminal
pub mod Ended
pub mod Reports
pub mod Requests
pub mod Operations
pub mod History
pub mod Refused
pub mod Sealed
pub mod Zero
pub mod Late
