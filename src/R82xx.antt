-- ===== src/R82xx.antt =====
-- The Rafael Micro R820T/R828D tuner driver, tuner_r82xx.c.
pub mod State
pub mod Shadow
pub mod Mux
pub mod Pll
pub mod Sysfreq
pub mod Standard
pub mod Gain
pub mod Bandwidth
pub mod Tune
pub mod Init
pub mod Calls
mod Tests
