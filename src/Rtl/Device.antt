-- ===== src/Rtl/Device.antt =====
-- The state of a dongle (`struct rtlsdr_dev` of librtlsdr.c, the part that its control functions
-- work on), and its demodulator set-up. The tuner is behind the table of functions that the code
-- calls it through. Only the streaming fields and the strings are left out.
use rtlsdrwrapper.Base.{ℕ, ◌-◌, ◌*◌, ◌/◌, ◌%◌, ◌^◌, bit_and, List, [], ◌∷◌}
use rtlsdrwrapper.Base.{Bool, true, false, Option, some, none, ◌==◌, if◌then◌else◌, ◌>>>◌}
use rtlsdrwrapper.Base.Int.{ℤ, pos, negsuc}
use rtlsdrwrapper.Base.Words.{or_ℤ}
use rtlsdrwrapper.Rtl.Usb.{
  Usb, Block, usbb, sysb, demod_ctl, demod_ctl_1, usb_sysctl, usb_epa_ctl, usb_epa_maxpkt,
}
use rtlsdrwrapper.Rtl.Usb.{write_reg, demod_write_reg, set_i2c_repeater}
use rtlsdrwrapper.Rtl.Fir.{set_fir}

-- `enum rtlsdr_tuner`
pub data TunerType : Type 0 where
  unknown e4000 fc0012 fc0013 fc2580 r820t r828d : TunerType

pub record Device (S : Type 0) : Type 0 where
  pub devh : S
  pub rate : ℕ
  pub rtl_xtal : ℕ
  pub fir : List ℤ
  pub direct_sampling : ℤ
  pub tuner_type : TunerType
  pub tun_xtal : ℕ
  pub freq : ℕ
  pub bw : ℕ
  pub offs_freq : ℕ
  pub corr : ℤ
  pub gain : ℤ
  pub e4k_fosc : ℕ
  pub r82xx_xtal : ℕ

-- A function on the device with the `int` that it returns.
abbrev pub Action : Type 0 → Type 0
Action S = Device S → ℤ × Device S

-- `rtlsdr_tuner_iface_t`; `none` is a null pointer.
pub record Tuner (S : Type 0) : Type 0 where
  pub init : Option (Action S)
  pub exit : Option (Action S)
  pub set_freq : Option (ℕ → Action S)
  pub set_bw : Option (ℕ → Action S)
  pub set_gain : Option (ℤ → Action S)
  pub set_if_gain : Option (ℤ → ℤ → Action S)
  pub set_gain_mode : Option (ℤ → Action S)

abbrev pub is_zero : ℤ → Bool
is_zero (pos n) = n == 0
is_zero (negsuc n) = false

abbrev pub is_r82xx : TunerType → Bool
is_r82xx r820t = true
is_r82xx r828d = true
is_r82xx _ = false

-- 0 or -1
abbrev pub code : Bool → ℤ
code good = if good then pos 0 else negsuc 0

module _ {S : Type 0} where
  -- `r = a; r |= b`
  infixl 10 ◌|=◌
  unfoldable pub ◌|=◌ : Action S → Action S → Action S
  unfolding or_ℤ
  ◌|=◌ a b s = let (r, s1) = a s in let (r', s2) = b s1 in (or_ℤ r r', s2)

  -- `r = a; b; return r;`
  unfoldable pub before : Action S → Action S → Action S
  before a b s = let (r, s1) = a s in let (r', s2) = b s1 in (r, s2)

module _ {S : Type 0} (usb : Usb S) where
  unfoldable pub demod : ℕ → ℕ → ℕ → ℕ → Action S
  demod page addr val len s =
      let (good, d) = demod_write_reg usb page addr val len s.devh in
      (code good, record s { devh = d })

  unfoldable pub repeater : Bool → Device S → Device S
  repeater on s = record s { devh = set_i2c_repeater usb on s.devh }

  -- A tuner function between switching the I2C repeater on and off.
  unfoldable pub through_repeater : Action S → Action S
  unfolding repeater
  through_repeater f s = let (r, s1) = f (repeater true s) in (r, repeater false s1)

  -- A function of the table where it is there, or nothing.
  unfoldable pub call_tuner : Option (Action S) → Action S
  unfolding through_repeater
  call_tuner none s = (pos 0, s)
  call_tuner (some f) s = through_repeater f s

  usb_writes : List (Block × ℕ × ℕ × ℕ) → S → S
  usb_writes [] d = d
  usb_writes ((block, addr, val, len) ∷ ws) d = usb_writes ws (write_reg usb block addr val len d).1

  demod_writes : List (ℕ × ℕ × ℕ × ℕ) → S → S
  demod_writes [] d = d
  demod_writes ((page, addr, val, len) ∷ ws) d =
      demod_writes ws (demod_write_reg usb page addr val len d).1

  pub init_baseband : List ℤ → S → S
  unfolding usb_writes demod_writes
  init_baseband fir d =
      let powered =
        usb_writes
          ((usbb, usb_sysctl, 0x09, 1)
            ∷ (usbb, usb_epa_maxpkt, 0x0002, 2)
            ∷ (usbb, usb_epa_ctl, 0x1002, 2)
            ∷ (sysb, demod_ctl_1, 0x22, 1)
            ∷ (sysb, demod_ctl, 0xe8, 1)
            ∷ [])
          d in
      let cleared =
        demod_writes
          ((1, 0x01, 0x14, 1)
            ∷ (1, 0x01, 0x10, 1)
            ∷ (1, 0x15, 0x00, 1)
            ∷ (1, 0x16, 0x0000, 2)
            ∷ (1, 0x16, 0x00, 1)
            ∷ (1, 0x17, 0x00, 1)
            ∷ (1, 0x18, 0x00, 1)
            ∷ (1, 0x19, 0x00, 1)
            ∷ (1, 0x1a, 0x00, 1)
            ∷ (1, 0x1b, 0x00, 1)
            ∷ [])
          powered in
      demod_writes
        ((0, 0x19, 0x05, 1)
          ∷ (1, 0x93, 0xf0, 1)
          ∷ (1, 0x94, 0x0f, 1)
          ∷ (1, 0x11, 0x00, 1)
          ∷ (1, 0x04, 0x00, 1)
          ∷ (0, 0x61, 0x60, 1)
          ∷ (0, 0x06, 0x80, 1)
          ∷ (1, 0xb1, 0x1b, 1)
          ∷ (0, 0x0d, 0x83, 1)
          ∷ [])
        (set_fir usb fir cleared).1

  pub deinit_baseband : Option (Tuner S) → Action S
  unfolding call_tuner
  deinit_baseband tuner s =
      let (r, s1) = call_tuner (elim tuner [ none ↦ none | some t ↦ t.exit ]) s in
      (r, record s1 { devh = (write_reg usb sysb demod_ctl 0x20 1 s1.devh).1 })

  -- `corrected val ppm` is `(uint32_t) APPLY_PPM_CORR(val, ppm)`, a product of doubles.
  module _ (corrected : ℕ → ℤ → ℕ) where
    -- The word of `-(freq * 2^22 / rtl_xtal)`; the quotient of doubles has this integer part for
    -- frequencies up to 3.6 GHz.
    pub if_word : ℕ → ℕ → ℕ
    if_word xtal freq = (2 ^ 32 - freq * 2 ^ 22 / xtal % 2 ^ 32) % 2 ^ 32

    unfoldable pub set_if_freq : ℕ → Action S
    unfolding ◌|=◌ demod
    set_if_freq freq s =
        let w = if_word (corrected s.rtl_xtal s.corr) freq in
        ((demod 1 0x19 (bit_and (w >>> 16) 0x3f) 1 |= demod 1 0x1a (bit_and (w >>> 8) 0xff) 1)
            |= demod 1 0x1b (bit_and w 0xff) 1)
          s
