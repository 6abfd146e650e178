-- ===== src/Axdr.antt =====
-- A-XDR: include/dlms/core/dlms_variant.hpp, include/dlms/axdr and src/dlms/axdr.
pub mod Value
pub mod Encoder
pub mod Decoder
pub mod Bytes
pub mod RoundTrip
pub mod Total
mod Runs
