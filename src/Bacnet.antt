-- ===== src/Bacnet.antt =====
-- The owner of the BACnet socket (bms/bacnet.py).
pub mod Gate
pub mod Client
