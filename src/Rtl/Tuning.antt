-- ===== src/Rtl/Tuning.antt =====
-- The control functions of librtlsdr.c: frequency, bandwidth, gain, sample rate and
-- offset tuning. The device pointer is not null.
pub mod Gains
pub mod Laws
pub mod Control
use rtlsdrwrapper.Base.{ℕ, ◌+◌, ◌-◌, ◌*◌, ◌/◌, ◌%◌, ◌^◌, bit_and, bit_or, List, [], ◌∷◌, map}
use rtlsdrwrapper.Base.{
  Bool, true, false, ◌&&◌, ◌||◌, not, Option, some, none, ltb, leb, ◌==◌, if◌then◌else◌,
}
use rtlsdrwrapper.Base.{u8, u16, u32, sub_u32, ◌>>>◌}
use rtlsdrwrapper.Base.Int.{ℤ, pos, negsuc, ltb_ℤ}
use rtlsdrwrapper.Base.Words.{or_ℤ}
use rtlsdrwrapper.Rtl.Usb.{Usb}
use rtlsdrwrapper.Rtl.Device.{
  TunerType, e4000, fc0012, fc0013, fc2580, r820t, r828d, Device, Action, Tuner, is_zero, is_r82xx,
}
use rtlsdrwrapper.Rtl.Device.{◌|=◌, before, demod, call_tuner, through_repeater, set_if_freq}
use rtlsdrwrapper.Rtl.Rate.{is_supported, rsamp_ratio, real_rate}

abbrev pub einval : ℤ
einval = negsuc 21

-- The word of `ppm * (-1) * 2^24 / 1000000`, cut off towards zero, for corrections that fit it.
abbrev pub correction_word : ℤ → ℕ
correction_word (pos n) = (2 ^ 16 - n * 2 ^ 24 / 1000000 % 2 ^ 16) % 2 ^ 16
correction_word (negsuc n) = (n + 1) * 2 ^ 24 / 1000000 % 2 ^ 16

abbrev r82xx_gains : List ℤ
r82xx_gains = map pos (
    0 ∷ 9 ∷ 14 ∷ 27 ∷ 37 ∷ 77 ∷ 87 ∷ 125 ∷ 144 ∷ 157 ∷ 166 ∷ 197 ∷ 207 ∷ 229 ∷ 254 ∷ 280 ∷ 297 ∷ 328
    ∷ 338 ∷ 364 ∷ 372 ∷ 386 ∷ 402 ∷ 421 ∷ 434 ∷ 439 ∷ 445 ∷ 480 ∷ 496 ∷ [])

-- The tables of `rtlsdr_get_tuner_gains`, in tenths of a dB.
unfoldable pub get_tuner_gains : TunerType → List ℤ
get_tuner_gains e4000 =
    negsuc 9
    ∷ pos 15
    ∷ pos 40
    ∷ pos 65
    ∷ pos 90
    ∷ pos 115
    ∷ pos 140
    ∷ pos 165
    ∷ pos 190
    ∷ pos 215
    ∷ pos 240
    ∷ pos 290
    ∷ pos 340
    ∷ pos 420
    ∷ []
get_tuner_gains fc0012 = negsuc 98 ∷ negsuc 39 ∷ pos 71 ∷ pos 179 ∷ pos 192 ∷ []
get_tuner_gains fc0013 =
    negsuc 98
    ∷ negsuc 72
    ∷ negsuc 64
    ∷ negsuc 62
    ∷ negsuc 59
    ∷ negsuc 57
    ∷ negsuc 53
    ∷ pos 58
    ∷ pos 61
    ∷ pos 63
    ∷ pos 65
    ∷ pos 67
    ∷ pos 68
    ∷ pos 70
    ∷ pos 71
    ∷ pos 179
    ∷ pos 181
    ∷ pos 182
    ∷ pos 184
    ∷ pos 186
    ∷ pos 188
    ∷ pos 191
    ∷ pos 197
    ∷ []
get_tuner_gains r820t = r82xx_gains
get_tuner_gains r828d = r82xx_gains
get_tuner_gains _ = pos 0 ∷ []

-- A function of the tuner's table, if there is a tuner.
abbrev pub entry : {S A : Type 0} → Option (Tuner S) → (Tuner S → Option A) → Option A
entry none field = none
entry (some t) field = field t

-- A function of the table at its argument.
abbrev at_arg : {S A : Type 0} → Option (A → Action S) → A → Option (Action S)
at_arg none a = none
at_arg (some f) a = some (f a)

module _ {S : Type 0} (usb : Usb S) (tuner : Option (Tuner S)) (corrected : ℕ → ℤ → ℕ) where
  pub set_sample_freq_correction : ℤ → Action S
  set_sample_freq_correction ppm =
      let w = correction_word ppm in
      demod usb 1 0x3f (bit_and w 0xff) 1 |= demod usb 1 0x3e (bit_and (w >>> 8) 0x3f) 1

  -- `dev->freq` is the frequency of a success, and 0 behind a failure.
  pub keep_freq : ℕ → ℤ × Device S → ℤ × Device S
  keep_freq freq (r, s) = (r, record s { freq = if is_zero r then freq else 0 })

  -- Without a tuner behind the ADC the demodulator mixes; else the tuner is set.
  tune : Tuner S → ℕ → Action S
  tune t freq s =
      if not (is_zero s.direct_sampling)
      then set_if_freq usb corrected freq s
      else elim t.set_freq [
        | none ↦ (negsuc 0, s)
        | some f ↦ through_repeater usb (f (sub_u32 freq s.offs_freq)) s
      ]

  pub set_center_freq : ℕ → Action S
  unfolding keep_freq tune
  set_center_freq freq s = elim tuner [
    | none ↦ (negsuc 0, s)
    | some t ↦ keep_freq freq (tune t freq s)
  ]

  pub set_tuner_bandwidth : ℕ → Action S
  set_tuner_bandwidth bw s = elim tuner [
    | none ↦ (negsuc 0, s)
    | some t ↦ elim t.set_bw [
      | none ↦ (pos 0, s)
      | some f ↦
          let (r, s1) = through_repeater usb (f (if ltb 0 bw then bw else s.rate)) s in
          (r, if is_zero r then record s1 { bw = bw } else s1)
    ]
  ]

  pub set_tuner_gain : ℤ → Action S
  set_tuner_gain gain s = elim tuner [
    | none ↦ (negsuc 0, s)
    | some t ↦
        let (r, s1) = call_tuner usb (at_arg t.set_gain gain) s in
        (r, record s1 { gain = if is_zero r then gain else pos 0 })
  ]

  pub set_tuner_if_gain : ℤ → ℤ → Action S
  set_tuner_if_gain stage gain s = elim tuner [
    | none ↦ (negsuc 0, s)
    | some t ↦ elim t.set_if_gain [
      | none ↦ (pos 0, s)
      | some f ↦ through_repeater usb (f stage gain) s
    ]
  ]

  pub set_tuner_gain_mode : ℤ → Action S
  set_tuner_gain_mode mode s = elim tuner [
    | none ↦ (negsuc 0, s)
    | some t ↦ call_tuner usb (at_arg t.set_gain_mode mode) s
  ]

  retune : Action S
  unfolding set_center_freq
  retune s = if ltb s.offs_freq s.freq then set_center_freq s.freq s else (pos 0, s)

  offset_bw : Bool → Device S → ℕ
  offset_bw on s = if on then u32 (2 * s.offs_freq) else if ltb 0 s.bw then s.bw else s.rate

  -- The return value of `set_bw` is dropped.
  unfoldable pub set_bw_of : (Device S → ℕ) → Device S → Device S
  set_bw_of bw s = elim (entry tuner (λ t. t.set_bw)) [
    | none ↦ s
    | some f ↦ (through_repeater usb (f (bw s)) s).1
  ]

  -- The part of `rtlsdr_set_offset_tuning` behind its guards.
  apply_offset : Bool → Action S
  unfolding retune offset_bw
  apply_offset on s =
      let offs_freq = if on then u32 (s.rate / 2 * 170) / 100 else 0 in
      let (r, s1) = set_if_freq usb corrected offs_freq (record s { offs_freq = offs_freq }) in
      let (r', s2) = retune (set_bw_of (offset_bw on) s1) in (or_ℤ r r', s2)

  pub set_offset_tuning : Bool → Action S
  unfolding apply_offset
  set_offset_tuning on s =
      if is_r82xx s.tuner_type
      then (negsuc 1, s)
      else if not (is_zero s.direct_sampling)
      then (negsuc 2, s)
      else apply_offset on s

  -- What `rtlsdr_set_sample_rate` writes for a ratio.
  program_ratio : ℕ → Action S
  unfolding set_sample_freq_correction
  program_ratio ratio s =
      (demod usb 1 0x9f (u16 (ratio >>> 16)) 2
          |= demod usb 1 0xa1 (bit_and ratio 0xffff) 2
          |= set_sample_freq_correction s.corr
          |= demod usb 1 0x01 0x14 1
          |= demod usb 1 0x01 0x10 1)
        s

  -- The offset is computed anew where offset tuning is on; the result is dropped.
  renew_offset : Device S → Device S
  unfolding set_offset_tuning
  renew_offset s = if s.offs_freq == 0 then s else (set_offset_tuning true s).1

  -- The part of `rtlsdr_set_sample_rate` behind its guard.
  apply_rate : ℕ → Action S
  unfolding renew_offset program_ratio
  apply_rate samp_rate s =
      let s0 = record s { rate = real_rate s.rtl_xtal samp_rate } in
      let s1 = set_bw_of (λ x. if ltb 0 x.bw then x.bw else x.rate) s0 in
      let (r, s2) = program_ratio (rsamp_ratio s.rtl_xtal samp_rate) s1 in (r, renew_offset s2)

  pub set_sample_rate : ℕ → Action S
  unfolding apply_rate
  set_sample_rate samp_rate s =
      if is_supported samp_rate then apply_rate samp_rate s else (einval, s)
