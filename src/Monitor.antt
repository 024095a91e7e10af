-- ===== src/Monitor.antt =====
-- src/orchestrator/monitor.rs: the monitor of a running attempt.
pub mod Actions
pub mod Probe
pub mod Contract
pub mod Observe
pub mod Route
pub mod Verdicts
pub mod Loop
