-- ===== src/Auth.antt =====
-- Users, roles, the login throttle, passwords, accounts and sessions (bms/auth.py).
mod Tests
pub mod User
pub mod Throttle
pub mod Password
pub mod Accounts
