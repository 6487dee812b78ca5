-- ===== src/UserAdmin.antt =====
-- The command line for accounts (bms/useradmin.py).
pub mod Rows
pub mod Lines
pub mod Checked
pub mod Commands
pub mod Import
pub mod Again
pub mod Ends
mod Tests
