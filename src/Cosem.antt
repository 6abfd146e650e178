-- ===== src/Cosem.antt =====
-- The COSEM interface classes of include/dlms/cosem.
pub mod Object
pub mod ImageTransfer
pub mod DisconnectControl
pub mod Limiter
pub mod Metering
pub mod Schedule
pub mod Link
pub mod Network
pub mod Device
pub mod Registry
mod Runs
