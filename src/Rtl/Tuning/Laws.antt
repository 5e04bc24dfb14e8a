-- ===== src/Rtl/Tuning/Laws.antt =====
-- What the control functions promise of the state, whatever the tuner and the device answer.
use rtlsdrwrapper.Base.{
  ℕ, u32, ◌*◌, ◌/◌, ◌≤◌, ◌<◌, ◌≡◌, refl, arith, ◌⊎◌, inl, inr, Bool, true, false, not,
}
use rtlsdrwrapper.Base.{some, ltb, ◌==◌, if◌then◌else◌, if_ind, Bool-cases, Option-cases, ap, ◌∙◌}
use rtlsdrwrapper.Base.Int.{ℤ, pos, negsuc}
use rtlsdrwrapper.Rtl.Usb.{Usb}
use rtlsdrwrapper.Rtl.Device.{Device, Tuner, is_zero, is_r82xx, set_if_freq}
use rtlsdrwrapper.Rtl.Rate.{is_supported, rsamp_ratio, real_rate}
use rtlsdrwrapper.Rtl.Rate.Exact.{real_rate-IsClose}
use rtlsdrwrapper.Rtl.Device.{Action, demod, through_repeater, repeater, ◌|=◌}
use rtlsdrwrapper.Rtl.Tuning.{
  tune, apply_offset, apply_rate, renew_offset, set_bw_of, offset_bw, retune, program_ratio,
  set_sample_freq_correction, keep_freq, set_center_freq, set_offset_tuning, set_sample_rate,
  einval,
}

is_zero→eq : (r : ℤ) → is_zero r ≡ true → r ≡ pos 0
is_zero→eq (pos n) h = ground arith
is_zero→eq (negsuc n) h = ground arith

module _ {S : Type 0} (usb : Usb S) (t : Tuner S) (corrected : ℕ → ℤ → ℕ) where
  -- The frequency that is reported is the one that was asked for where tuning has succeeded, and 0
  -- where it has not.
  pub set_center_freq-freq :
      (freq : ℕ) (s : Device S)
      → (set_center_freq usb (some t) corrected freq s).1.freq
        ≡ (if is_zero (set_center_freq usb (some t) corrected freq s).0 then freq else 0)
  unfolding set_center_freq keep_freq
  set_center_freq-freq freq s = refl

-- The rates that the resampler supports.
abbrev pub IsRate : ℕ → Type 0
IsRate r = ((225000 < r) × (r ≤ 300000)) ⊎ ((900000 < r) × (r ≤ 3200000))

supported-IsRate : (r : ℕ) → is_supported r ≡ true → IsRate r
supported-IsRate r h = ground arith

refused-IsRate : (r : ℕ) → is_supported r ≡ false → IsRate r → ⊥
refused-IsRate r h (inl p) = ground arith
refused-IsRate r h (inr p) = ground arith

-- The functions of the tuner that a change of the rate calls leave the rate alone.
pub record KeepsRate {S : Type 0} (t : Tuner S) : Type 0 where
  pub set_freq_law :
      (f : ℕ → Action S) → t.set_freq ≡ some f → (n : ℕ) (s : Device S) → (f n s).1.rate ≡ s.rate
  pub set_bw_law :
      (f : ℕ → Action S) → t.set_bw ≡ some f → (n : ℕ) (s : Device S) → (f n s).1.rate ≡ s.rate

module _ {S : Type 0} (usb : Usb S) (t : Tuner S) (corrected : ℕ → ℤ → ℕ)
    (quiet : KeepsRate t) where
  rate-set_if_freq : (freq : ℕ) (s : Device S) → (set_if_freq usb corrected freq s).1.rate ≡ s.rate
  unfolding set_if_freq ◌|=◌ demod
  rate-set_if_freq freq s = refl

  rate-through_repeater :
      (f : Action S)
      → ((s : Device S) → (f s).1.rate ≡ s.rate)
      → (s : Device S) → (through_repeater usb f s).1.rate ≡ s.rate
  unfolding through_repeater repeater
  rate-through_repeater f h s = h (repeater usb true s)

  rate-keep_freq :
      (freq : ℕ) (r : ℤ × Device S) → (keep_freq usb (some t) corrected freq r).1.rate ≡ r.1.rate
  unfolding keep_freq
  rate-keep_freq freq r = refl

  rate-tune : (freq : ℕ) (s : Device S) → (tune usb (some t) corrected t freq s).1.rate ≡ s.rate
  unfolding tune
  rate-tune freq s =
      if_ind (λ (r : ℤ × Device S). r.1.rate ≡ s.rate) (not (is_zero s.direct_sampling)) _ _
        (λ _. rate-set_if_freq freq s)
        (λ _. elim (Option-cases t.set_freq) [
          | inl e ↦ rw e refl
          | inr (f, e) ↦ rw e (rate-through_repeater (f _) (quiet.set_freq_law f e _) s)
        ])

  rate-set_center_freq :
      (freq : ℕ) (s : Device S) → (set_center_freq usb (some t) corrected freq s).1.rate ≡ s.rate
  unfolding set_center_freq
  rate-set_center_freq freq s =
      rate-keep_freq freq (tune usb (some t) corrected t freq s) ∙ rate-tune freq s

  rate-set_bw_of :
      (bw : Device S → ℕ) (s : Device S) → (set_bw_of usb (some t) corrected bw s).rate ≡ s.rate
  unfolding set_bw_of
  rate-set_bw_of bw s = elim (Option-cases t.set_bw) [
    | inl e ↦ rw e refl
    | inr (f, e) ↦ rw e (rate-through_repeater (f _) (quiet.set_bw_law f e _) s)
  ]

  rate-retune : (s : Device S) → (retune usb (some t) corrected s).1.rate ≡ s.rate
  unfolding retune
  rate-retune s =
      if_ind (λ (r : ℤ × Device S). r.1.rate ≡ s.rate) (ltb s.offs_freq s.freq) _ _
        (λ _. rate-set_center_freq s.freq s) (λ _. refl)

  rate-apply_offset :
      (on : Bool) (s : Device S) → (apply_offset usb (some t) corrected on s).1.rate ≡ s.rate
  unfolding apply_offset
  rate-apply_offset on s =
      let offs = if on then u32 (s.rate / 2 * 170) / 100 else 0 in
      let s0 = record s { offs_freq = offs } in
      let s1 = (set_if_freq usb corrected offs s0).1 in
      rate-retune (set_bw_of usb (some t) corrected (offset_bw usb (some t) corrected on) s1)
      ∙ rate-set_bw_of (offset_bw usb (some t) corrected on) s1
      ∙ rate-set_if_freq offs s0

  rate-set_offset_tuning :
      (on : Bool) (s : Device S) → (set_offset_tuning usb (some t) corrected on s).1.rate ≡ s.rate
  unfolding set_offset_tuning
  rate-set_offset_tuning on s =
      if_ind (λ (r : ℤ × Device S). r.1.rate ≡ s.rate) (is_r82xx s.tuner_type) _ _ (λ _. refl)
        (λ _.
          if_ind (λ (r : ℤ × Device S). r.1.rate ≡ s.rate) (not (is_zero s.direct_sampling)) _ _
            (λ _. refl) (λ _. rate-apply_offset on s))

  rate-program_ratio :
      (q : ℕ) (s : Device S) → (program_ratio usb (some t) corrected q s).1.rate ≡ s.rate
  unfolding program_ratio set_sample_freq_correction ◌|=◌ demod
  rate-program_ratio q s = refl

  rate-renew_offset : (s : Device S) → (renew_offset usb (some t) corrected s).rate ≡ s.rate
  unfolding renew_offset
  rate-renew_offset s =
      if_ind (λ (x : Device S). x.rate ≡ s.rate) (s.offs_freq == 0) _ _ (λ _. refl)
        (λ _. rate-set_offset_tuning true s)

  rate-apply_rate :
      (samp_rate : ℕ) (s : Device S)
      → (apply_rate usb (some t) corrected samp_rate s).1.rate ≡ real_rate s.rtl_xtal samp_rate
  unfolding apply_rate
  rate-apply_rate samp_rate s =
      let s0 = record s { rate = real_rate s.rtl_xtal samp_rate } in
      let bw : Device S → ℕ = λ x. if ltb 0 x.bw then x.bw else x.rate in
      let s1 = set_bw_of usb (some t) corrected bw s0 in
      let q = rsamp_ratio s.rtl_xtal samp_rate in
      rate-renew_offset (program_ratio usb (some t) corrected q s1).1
      ∙ rate-program_ratio q s1
      ∙ rate-set_bw_of bw s0

  accepted :
      (samp_rate : ℕ) (s : Device S)
      → s.rtl_xtal ≡ 28800000
      → is_supported samp_rate ≡ true
      → (set_sample_rate usb (some t) corrected samp_rate s).1.rate ≡ samp_rate
  unfolding set_sample_rate
  accepted samp_rate s x ok_rate =
      ap
        (λ (c : Bool).
          (if c then apply_rate usb (some t) corrected samp_rate s else (einval, s)).1.rate)
        ok_rate
      ∙ rate-apply_rate samp_rate s
      ∙ ap (λ k. real_rate k samp_rate) x
      ∙ (real_rate-IsClose samp_rate ok_rate).0

  -- With the crystal at 28.8 MHz and for a rate above 225 kHz up to 300 kHz, or above 900 kHz up to
  -- 3.2 MHz, the rate that the device stores, the integer part of that of the resampler, is behind the
  -- call the requested one, also where offset tuning is redone; every other rate is refused with -EINVAL
  -- and changes nothing. The tuner's functions are assumed to leave the rate alone.
  pub set_sample_rate-rate :
      (samp_rate : ℕ) (s : Device S)
      → s.rtl_xtal ≡ 28800000
      → (IsRate samp_rate
          × ((set_sample_rate usb (some t) corrected samp_rate s).1.rate ≡ samp_rate))
        ⊎ ((IsRate samp_rate → ⊥)
            × (set_sample_rate usb (some t) corrected samp_rate s ≡ (einval, s)))
  unfolding set_sample_rate
  set_sample_rate-rate samp_rate s x = elim (Bool-cases (is_supported samp_rate)) [
    | inl e ↦ inl (supported-IsRate samp_rate e, accepted samp_rate s x e)
    | inr e ↦ inr (refused-IsRate samp_rate e, rw e refl)
  ]
