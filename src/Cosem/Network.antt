-- ===== src/Cosem/Network.antt =====
-- The classes of include/dlms/cosem for the network of a device: addresses, time and mail servers, routes and push.
pub mod Ipv4Setup
pub mod MacAddressSetup
pub mod NtpSetup
pub mod SmtpSetup
pub mod Route
pub mod PushSetup
