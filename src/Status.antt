-- ===== src/Status.antt =====
-- The status enumerations of durable-workflows/src/persistence/mod.rs, one module each.
pub mod Workflow
pub mod Activity
pub mod Waits
pub mod Approval
pub mod ScheduleRun
pub mod Attempt
pub mod RoundTrip
pub mod Sets
