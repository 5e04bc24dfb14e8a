-- ===== src/Tools.antt =====
-- The command line programs of Sources/CRTLSDR/src and the code they share.
pub mod Image
pub mod Adsb
pub mod Convenience
pub mod Fm
mod Tests
