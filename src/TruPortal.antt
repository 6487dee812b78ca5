-- ===== src/TruPortal.antt =====
-- The client of the access control panel (bms/truportal.py).
pub mod Durations
pub mod Spans
pub mod Panel
pub mod Inventory
mod Tests
