-- ===== src/Hdlc.antt =====
-- HDLC: include/dlms/hdlc and src/dlms/hdlc.
pub mod Escape
pub mod Control
pub mod Address
pub mod Crc
pub mod Frame
mod Runs
