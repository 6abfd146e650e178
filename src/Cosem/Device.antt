-- ===== src/Cosem/Device.antt =====
-- The classes of include/dlms/cosem for the device itself: associations, security, the disconnector, sensors and power.
pub mod AssociationLn
pub mod SecuritySetup
pub mod DirectDisconnect
pub mod SensorManager
pub mod Ups
