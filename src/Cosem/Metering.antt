-- ===== src/Cosem/Metering.antt =====
-- The classes of include/dlms/cosem for what a meter measures: registers, demand, load profiles and monitors.
pub mod Data
pub mod Register
pub mod ExtendedRegister
pub mod DemandRegister
pub mod MaximumDemand
pub mod ProfileGeneric
pub mod RegisterMonitor
