-- ===== src/R82xx/Tune.antt =====
-- `r82xx_set_freq` of tuner_r82xx.c: mux, PLL and antenna input for a frequency in Hz.
pub mod Laws
use rtlsdrwrapper.Base.{
  ℕ, ◌+◌, Bool, true, false, not, ◌&&◌, ◌||◌, ◌==◌, ltb, leb, if◌then◌else◌, u32,
}
use rtlsdrwrapper.Base.Int.{ℤ, pos, negsuc}
use rtlsdrwrapper.R82xx.State.{Priv, Bus, Driver, Result, ok, err, R82xxChip, chip_r828d}
use rtlsdrwrapper.R82xx.State.{◌>>=◌, ◌>>◌, gets, modify, pure}
use rtlsdrwrapper.R82xx.Shadow.{write_reg_mask}
use rtlsdrwrapper.R82xx.Mux.{set_mux}
use rtlsdrwrapper.R82xx.Pll.{set_pll}

abbrev pub hf : ℕ
hf = 1

abbrev pub vhf : ℕ
vhf = 2

abbrev pub uhf : ℕ
uhf = 3

-- `MHZ(28.8)` is exactly this number in double arithmetic, as are the other constants here.
abbrev pub mhz_28_8 : ℕ
mhz_28_8 = 28800000

abbrev pub upconvert : Bool → ℕ → ℕ
upconvert is_blog_v4 freq =
    if is_blog_v4 then (if ltb freq mhz_28_8 then freq + mhz_28_8 else freq) else freq

-- The notch filters are off (0x00) inside the notch bands.
abbrev pub notch : ℕ → ℕ
notch freq =
    if leb freq 2200000
      || (leb 85000000 freq && leb freq 112000000)
      || (leb 172000000 freq && leb freq 242000000)
    then 0x00
    else 0x08

abbrev pub band_of : ℕ → ℕ
band_of freq =
    if leb freq mhz_28_8 then hf else if ltb mhz_28_8 freq && ltb freq 250000000 then vhf else uhf

abbrev pub is_r828d : R82xxChip → Bool
is_r828d chip_r828d = true
is_r828d _ = false

abbrev returned_ok : ℤ → Result (Unit {0})
returned_ok (pos n) = ok tt
returned_ok (negsuc n) = err n

module _ {S : Type 0} (b : Bus S) where
  bias_tee : ℕ → Bool → Driver S (Unit {0})
  bias_tee gpio on s =
      let (rc, dev) = b.set_bias_tee_gpio gpio on s.rtl_dev in
      (returned_ok rc, record s { rtl_dev = dev })

  -- The tuner inputs of an RTL-SDR Blog V4.
  select_band : ℕ → Driver S (Unit {0})
  unfolding bias_tee
  select_band band = do
    modify (λ s. record s { input = band })
    let cable_2_in = if band == hf then 0x08 else 0x00
    write_reg_mask b 0x06 cable_2_in 0x08
    bias_tee 5 (cable_2_in == 0)
    write_reg_mask b 0x05 (if band == vhf then 0x40 else 0x00) 0x40
    write_reg_mask b 0x05 (if band == uhf then 0x00 else 0x20) 0x20

  blog_v4_input : ℕ → Driver S (Unit {0})
  unfolding select_band
  blog_v4_input freq = do
    write_reg_mask b 0x17 (notch freq) 0x08
    input ← gets (λ s. s.input)
    let band = band_of freq
    if band == input then pure tt else select_band band

  switch_input : ℕ → Driver S (Unit {0})
  switch_input air_cable1_in = do
    modify (λ s. record s { input = air_cable1_in })
    write_reg_mask b 0x05 air_cable1_in 0x60

  -- `Cable1` or `Air-In` of an R828D.
  standard_input : ℕ → Driver S (Unit {0})
  unfolding switch_input
  standard_input freq = do
    input ← gets (λ s. s.input)
    cfg ← gets (λ s. s.cfg)
    let air_cable1_in = if ltb 345000000 freq then 0x00 else 0x60
    if is_r828d cfg.rafael_chip && not (air_cable1_in == input)
        then switch_input air_cable1_in
        else pure tt

  -- Without a lock the function returns 0 and leaves the inputs alone.
  pub set_freq : ℕ → Driver S (Unit {0})
  unfolding blog_v4_input standard_input
  set_freq freq = do
    is_blog_v4 ← gets (λ s. b.check_dongle_model s.rtl_dev)
    int_freq ← gets (λ s. s.int_freq)
    let lo_freq = u32 (upconvert is_blog_v4 freq + int_freq)
    set_mux b lo_freq
    set_pll b lo_freq
    lock ← gets (λ s. s.has_lock)
    if lock then (if is_blog_v4 then blog_v4_input freq else standard_input freq) else pure tt
