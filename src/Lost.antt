-- ===== src/Lost.antt =====
-- esp8266/lost: the C library functions that the firmware brings along.
pub mod Text
pub mod Number
pub mod Double
pub mod Calendar
pub mod Crc
pub mod Crypto
pub mod Cpp
mod Tests
