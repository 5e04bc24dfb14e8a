-- ===== src/Rtl/Tuning/Gains.antt =====
-- The gains that librtlsdr.c offers for the R82xx tuners against the gain steps of their driver.
