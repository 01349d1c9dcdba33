-- ===== src/Kpi.antt =====
-- src/kpi.rs: the commands of the game and the daily tasks.
pub mod Request
pub mod Commands
pub mod Session
pub mod Report
pub mod Env
pub mod Status
pub mod Team
pub mod Cars
pub mod Daily
pub mod Tests
