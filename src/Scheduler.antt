-- ===== src/Scheduler.antt =====
-- src/scheduler.rs: the windows of time in which the scheduler works, and what a round is for.
pub mod Policy
pub mod Planner
pub mod Maintenance
pub mod Tests
