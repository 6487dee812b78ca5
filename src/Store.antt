-- ===== src/Store.antt =====
-- `Store` (bms/store.py): the intent of the building, and its sampled history. An `IntegrityError`
-- of SQLite is `none`.
pub mod Intent
pub mod Precedence
pub mod Week
pub mod Calendar
pub mod Reach
mod Tests
pub mod Readings
