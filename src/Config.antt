-- ===== src/Config.antt =====
-- src/config.rs: times, weekdays and maintenance windows, and the ids of roles.
pub mod Times
pub mod Paths
pub mod Formations
pub mod Windows
