-- ===== src/Api.antt =====
-- The HTTP API (bms/api.py): the caller of a route, doors and lights, writes, commands, sign-in,
-- what is seeded, and the requests that change the database.
pub mod Caller
pub mod Doors
pub mod Buttons
pub mod Unlock
pub mod Login
pub mod Account
pub mod Seeds
pub mod Requests
pub mod Commands
mod ChangeTests
pub mod Writes
pub mod Limits
mod Tests
