-- ===== src/Phases.antt =====
-- src/orchestrator/phases.rs: one module for each phase of the run.
pub mod Snapshots
pub mod Inputs
pub mod GitState
pub mod Start
pub mod Sessions
pub mod Request
pub mod Dispatch
pub mod Order
pub mod Retry
pub mod Collect
pub mod Verdict
pub mod Workspace
pub mod Passes
pub mod Gate
