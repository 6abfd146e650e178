-- ===== src/Ber.antt =====
-- ASN.1 BER: include/dlms/asn1/ber.hpp and src/dlms/asn1/ber.cpp.
pub mod Tlv
pub mod Apdu
pub mod RoundTrip
pub mod Total
pub mod Fields
pub mod Aarq
pub mod Aare
mod Runs
