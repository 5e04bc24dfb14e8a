-- ===== src/Rtl.antt =====
-- The RTL2832U of librtlsdr.c: registers behind USB control transfers, and what is built on them.
pub mod Usb
pub mod Fir
pub mod Eeprom
pub mod Device
pub mod Rate
pub mod Tuning
pub mod Dongle
pub mod E4000
pub mod Stream
pub mod Fc0012Entry
pub mod Fc0013Entry
pub mod Discovery
mod Tests
mod StreamTests
