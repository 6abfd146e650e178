-- ===== src/Cosem/Link.antt =====
-- The classes of include/dlms/cosem for the lines of a device: serial ports, M-Bus, modems and radio.
pub mod SerialPort
pub mod InfraredSetup
pub mod Rs485Setup
pub mod LpSetup
pub mod MbusClient
pub mod MbusMaster
pub mod GprsModemSetup
pub mod AutoConnect
pub mod LorawanSetup
pub mod NbiotSetup
pub mod WisunSetup
