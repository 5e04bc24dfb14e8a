-- ===== src/E4k.antt =====
-- The driver of the Elonics E4000 tuner, Sources/CRTLSDR/src/tuner_e4k.c.
pub mod State
pub mod Regs
pub mod Filter
pub mod Pll
pub mod Gain
pub mod Offset
pub mod Init
mod Tests
