-- ===== src/Sm4.antt =====
-- The SM4 block cipher: include/dlms/security/sm4.hpp and src/dlms/security/sm4.cpp.
pub mod Tables
pub mod Block
pub mod Rounds
pub mod Words
pub mod Inverse
pub mod Gcm
mod Runs
