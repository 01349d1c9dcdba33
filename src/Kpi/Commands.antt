-- ===== src/Kpi/Commands.antt =====
-- The methods of `GameClient` in src/kpi.rs that send one command each and return its answer.
pub mod Account
pub mod Club
pub mod Event
