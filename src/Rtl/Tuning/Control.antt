-- ===== src/Rtl/Tuning/Control.antt =====
-- The control functions of librtlsdr.c that are built on tuning and the sample rate: crystals,
-- correction, test and AGC mode, direct sampling; and the functions that report a field.
use rtlsdrwrapper.Base.{ℕ}
use rtlsdrwrapper.Base.{Bool, ◌&&◌, ◌||◌, not, Option, ltb, ◌==◌, if◌then◌else◌}
use rtlsdrwrapper.Base.Int.{eq_ℤ, ℤ, pos, negsuc, ltb_ℤ}
use rtlsdrwrapper.Base.Words.{or_ℤ}
use rtlsdrwrapper.Rtl.Usb.{Usb, usbb, usb_epa_ctl, write_reg}
use rtlsdrwrapper.Rtl.Device.{TunerType, Device, Action, Tuner, is_zero, is_r82xx}
use rtlsdrwrapper.Rtl.Device.{◌|=◌, demod, call_tuner, set_if_freq}
use rtlsdrwrapper.Rtl.Tuning.{entry, set_center_freq, set_sample_rate, set_sample_freq_correction}

-- 3.57 MHz
abbrev pub r82xx_if_freq : ℕ
r82xx_if_freq = 3570000

module _ {S : Type 0} (usb : Usb S) (tuner : Option (Tuner S)) (corrected : ℕ → ℤ → ℕ) where
  update_tuner_xtal : Device S → Device S
  update_tuner_xtal s = record s {
    e4k_fosc = corrected s.tun_xtal s.corr;
    r82xx_xtal = corrected s.tun_xtal s.corr;
  }

  retune_if_tuned : ℤ → Action S
  unfolding set_center_freq
  retune_if_tuned r s = if s.freq == 0 then (r, s) else set_center_freq usb tuner corrected s.freq s

  -- The crystal of the demodulator; the rate in use is set again.
  change_rtl_xtal : ℕ → Action S
  unfolding set_sample_rate
  change_rtl_xtal rtl_freq s =
      if ltb 0 rtl_freq && not (s.rtl_xtal == rtl_freq)
      then (let s' = record s { rtl_xtal = rtl_freq } in
          if s'.rate == 0 then (pos 0, s') else set_sample_rate usb tuner corrected s'.rate s')
      else (pos 0, s)

  -- The crystal of the tuner, 0 for that of the demodulator.
  change_tun_xtal : ℕ → ℤ × Device S → ℤ × Device S
  unfolding update_tuner_xtal retune_if_tuned
  change_tun_xtal tuner_freq (r, s) =
      if s.tun_xtal == tuner_freq
      then (r, s)
      else retune_if_tuned r (
          update_tuner_xtal
            (record s { tun_xtal = if tuner_freq == 0 then s.rtl_xtal else tuner_freq }))

  pub set_xtal_freq : ℕ → ℕ → Action S
  unfolding change_rtl_xtal change_tun_xtal
  set_xtal_freq rtl_freq tuner_freq s =
      if ltb 0 rtl_freq && (ltb rtl_freq 28799000 || ltb 28801000 rtl_freq)
      then (negsuc 1, s)
      else change_tun_xtal tuner_freq (change_rtl_xtal rtl_freq s)

  pub set_freq_correction : ℤ → Action S
  unfolding set_sample_freq_correction update_tuner_xtal set_center_freq
  set_freq_correction ppm s =
      if eq_ℤ s.corr ppm
      then (negsuc 1, s)
      else (let (r, s1) =
            set_sample_freq_correction usb tuner corrected ppm (record s { corr = ppm }) in
          let s2 = update_tuner_xtal s1 in
          if s2.freq == 0
          then (r, s2)
          else (let (r', s3) = set_center_freq usb tuner corrected s2.freq s2 in (or_ℤ r r', s3)))

  pub set_testmode : Bool → Action S
  set_testmode on = demod usb 0 0x19 (if on then 0x03 else 0x05) 1

  pub set_agc_mode : Bool → Action S
  set_agc_mode on = demod usb 0 0x19 (if on then 0x25 else 0x05) 1

  sampling_on : ℤ → Action S
  sampling_on on =
      (λ s. call_tuner usb (entry tuner (λ t. t.exit)) s)
      |= demod usb 1 0xb1 0x1a 1
      |= demod usb 1 0x15 0x00 1
      |= demod usb 0 0x08 0x4d 1
      |= demod usb 0 0x06 (if ltb_ℤ (pos 1) on then 0x90 else 0x80) 1

  sampling_off : TunerType → Action S
  sampling_off type =
      (λ s. call_tuner usb (entry tuner (λ t. t.init)) s)
      |= (if is_r82xx type
          then set_if_freq usb corrected r82xx_if_freq |= demod usb 1 0x15 0x01 1
          else (set_if_freq usb corrected 0 |= demod usb 0 0x08 0xcd 1 |= demod usb 1 0xb1 0x1b 1))
      |= demod usb 0 0x06 0x80 1

  pub set_direct_sampling : ℤ → Action S
  unfolding sampling_on sampling_off set_center_freq
  set_direct_sampling on s =
      let (r, s1) = if is_zero on then sampling_off s.tuner_type s else sampling_on on s in
      let (r', s2) =
        set_center_freq usb tuner corrected s1.freq (record s1 { direct_sampling = on }) in
      (or_ℤ r r', s2)

-- The functions that report a field.
module _ {S : Type 0} where
  pub get_center_freq : Device S → ℕ
  get_center_freq s = s.freq

  pub get_freq_correction : Device S → ℤ
  get_freq_correction s = s.corr

  pub get_tuner_gain : Device S → ℤ
  get_tuner_gain s = s.gain

  pub get_sample_rate : Device S → ℕ
  get_sample_rate s = s.rate

  pub get_direct_sampling : Device S → ℤ
  get_direct_sampling s = s.direct_sampling

  pub get_offset_tuning : Device S → Bool
  get_offset_tuning s = not (s.offs_freq == 0)

  pub get_tuner_type : Device S → TunerType
  get_tuner_type s = s.tuner_type

  -- Both crystals, as corrected.
  pub get_xtal_freq : (ℕ → ℤ → ℕ) → Device S → ℕ × ℕ
  get_xtal_freq corrected s = (corrected s.rtl_xtal s.corr, corrected s.tun_xtal s.corr)

  pub get_tuner_clock : (ℕ → ℤ → ℕ) → Device S → ℕ
  unfolding get_xtal_freq
  get_tuner_clock corrected s = (get_xtal_freq corrected s).1

-- The return values of both writes are dropped.
module _ {S : Type 0} (usb : Usb S) where
  pub reset_buffer : Action S
  unfolding write_reg
  reset_buffer s =
      let d1 = (write_reg usb usbb usb_epa_ctl 0x1002 2 s.devh).1 in
      (pos 0, record s { devh = (write_reg usb usbb usb_epa_ctl 0x0000 2 d1).1 })
