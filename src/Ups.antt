-- ===== src/Ups.antt =====
-- The UPS layer (src/ups): bit masks, text formatting.
pub mod Flags
pub mod Data
pub mod Format
pub mod Connection
pub mod Connect
pub mod Hid
pub mod Pdc
pub mod Smt
pub mod Registers
pub mod Blocks
pub mod Exchange
pub mod Srt
pub mod Modbus
pub mod RegisterText
