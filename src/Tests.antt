-- ===== src/Tests.antt =====
-- Runs of the models at concrete inputs.
pub mod SqlRuns
pub mod ErrorRuns
pub mod StatusRuns
pub mod ScheduleRuns
pub mod UserRuns
pub mod DriftRuns
pub mod OwnershipRuns
pub mod StateDriftRuns
