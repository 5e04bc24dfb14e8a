-- ===== src/Fc0013.antt =====
-- The driver of the FC0013 tuner, Sources/CRTLSDR/src/tuner_fc0013.c. Its register access, its
-- register arithmetic and its choice of the VCO range are those of the FC0012 and shared with it.
pub mod Laws
mod Tests
use rtlsdrwrapper.Base.{
  ℕ, ◌+◌, ◌-◌, ◌*◌, ◌/◌, ◌%◌, ◌^◌, bit_and, bit_or, List, [], ◌∷◌, Option, none, some,
}
use rtlsdrwrapper.Base.{
  Bool, true, false, not, ◌&&◌, ltb, leb, ◌==◌, if◌then◌else◌, get_or, u32, bit_clear,
}
use rtlsdrwrapper.Base.Int.{ℤ, pos, negsuc, ◌+ℤ◌, ltb_ℤ, leb_ℤ, is_negative, pos_part}
use rtlsdrwrapper.R82xx.State.{Bus}
use rtlsdrwrapper.Fc0012.{
  Attempt, ◌and_then◌, vco_select, xdiv_of, am_pm, reg_1_2, is_invalid, divider_bytes, writereg,
  readreg, writeregs, read_voltage,
}

-- The frequency divider, and what stands for it in registers 5 and 6.
abbrev pub multi_for : ℕ → ℕ × ℕ × ℕ
multi_for freq =
    if ltb freq 37084000
    then (96, 0x82, 0x00)
    else if ltb freq 55625000
    then (64, 0x02, 0x02)
    else if ltb freq 74167000
    then (48, 0x42, 0x00)
    else if ltb freq 111250000
    then (32, 0x82, 0x02)
    else if ltb freq 148334000
    then (24, 0x22, 0x00)
    else if ltb freq 222500000
    then (16, 0x42, 0x02)
    else if ltb freq 296667000
    then (12, 0x12, 0x00)
    else if ltb freq 445000000
    then (8, 0x22, 0x02)
    else if ltb freq 593334000
    then (6, 0x0a, 0x00)
    else if ltb freq 950000000
    then (4, 0x12, 0x02)
    else (2, 0x0a, 0x02)

-- A product of 32 bits.
abbrev pub f_vco : ℕ → ℕ
f_vco freq = u32 (freq * (multi_for freq).0)

-- Registers 1 to 6, or nothing where no combination is valid.
pub pll_registers : ℕ → ℕ → ℕ → Option (List ℕ)
pll_registers half freq bandwidth =
    if is_invalid (reg_1_2 (am_pm (xdiv_of half (f_vco freq))))
    then none
    else some (divider_bytes (multi_for freq) half (f_vco freq) bandwidth)

-- Registers 1 to 21.
abbrev pub init_regs : List ℕ
init_regs =
    0x09
    ∷ 0x16
    ∷ 0x00
    ∷ 0x00
    ∷ 0x17
    ∷ 0x02
    ∷ bit_or 0x0a 0x20
    ∷ 0xff
    ∷ 0x6e
    ∷ 0xb8
    ∷ 0x82
    ∷ bit_or 0xfc 0x02
    ∷ 0x01
    ∷ 0x00
    ∷ 0x00
    ∷ 0x00
    ∷ 0x00
    ∷ 0x00
    ∷ 0x00
    ∷ 0x50
    ∷ 0x01
    ∷ []

-- The bits of the VHF track.
abbrev pub vhf_track : ℕ → ℕ
vhf_track freq =
    if leb freq 177500000
    then 0x1c
    else if leb freq 184500000
    then 0x18
    else if leb freq 191500000
    then 0x14
    else if leb freq 198500000
    then 0x10
    else if leb freq 205500000
    then 0x0c
    else if leb freq 219500000
    then 0x08
    else if ltb freq 300000000
    then 0x04
    else 0x1c

-- The gains in tenths of a decibel with the codes of register 20.
abbrev pub lna_gains : List (ℤ × ℕ)
lna_gains =
    (negsuc 98, 0x02)
    ∷ (negsuc 72, 0x03)
    ∷ (negsuc 64, 0x05)
    ∷ (negsuc 62, 0x04)
    ∷ (negsuc 62, 0x00)
    ∷ (negsuc 59, 0x07)
    ∷ (negsuc 57, 0x01)
    ∷ (negsuc 53, 0x06)
    ∷ (pos 58, 0x0f)
    ∷ (pos 61, 0x0e)
    ∷ (pos 63, 0x0d)
    ∷ (pos 65, 0x0c)
    ∷ (pos 67, 0x0b)
    ∷ (pos 68, 0x0a)
    ∷ (pos 70, 0x09)
    ∷ (pos 71, 0x08)
    ∷ (pos 179, 0x17)
    ∷ (pos 181, 0x16)
    ∷ (pos 182, 0x15)
    ∷ (pos 184, 0x14)
    ∷ (pos 186, 0x13)
    ∷ (pos 188, 0x12)
    ∷ (pos 191, 0x11)
    ∷ (pos 197, 0x10)
    ∷ []

-- The search of `fc0013_set_lna_gain`: the first row that reaches the gain, or the last.
pub lna_row : List (ℤ × ℕ) → ℤ → Option (ℤ × ℕ)
lna_row [] gain = none
lna_row (row ∷ []) gain = some row
lna_row (row ∷ next ∷ rows) gain =
    let rest = lna_row (next ∷ rows) gain in if leb_ℤ gain row.0 then some row else rest

abbrev pub row_code : Option (ℤ × ℕ) → ℕ
row_code none = 0
row_code (some row) = row.1

-- `ret |= ...`: what follows runs in either case.
infixl 10 ◌and_also◌
abbrev pub ◌and_also◌ {ℓ} : {S : Type ℓ} → (S → Bool × S) → (S → Bool × S) → S → Bool × S
◌and_also◌ m n s = let (good, s1) = m s in let (good', s2) = n s1 in (good && good', s2)

-- The value read, or the 0 that `tmp` starts with.
abbrev pub value_read : Option ℕ → ℕ
value_read none = 0
value_read (some v) = v

abbrev pub was_read : Option ℕ → Bool
was_read none = false
was_read (some v) = true

-- `rtlsdr_get_tuner_clock` is the number `clock`.
module _ {S : Type 0} (b : Bus S) where
  unfoldable pub init : Attempt S
  unfolding writeregs
  init = writeregs b 1 init_regs

  written_back : ℕ → (ℕ → ℕ) → Option ℕ × S → Bool × S
  unfolding writereg
  written_back reg f (none, s) = (false, s)
  written_back reg f (some tmp, s) = writereg b reg (f tmp) s

  -- `readreg`, `goto exit` on failure, `writereg`
  update : ℕ → (ℕ → ℕ) → Attempt S
  unfolding readreg written_back
  update reg f s = written_back reg f (readreg b reg s)

  -- The same where a failed read leaves `tmp` at 0 and is remembered only.
  update_anyway : ℕ → (ℕ → ℕ) → Attempt S
  unfolding readreg writereg
  update_anyway reg f s =
      let (got, s1) = readreg b reg s in
      let (good, s2) = writereg b reg (f (value_read got)) s1 in (was_read got && good, s2)

  set_vhf_track : ℕ → Attempt S
  unfolding update
  set_vhf_track freq = update 0x1d (λ tmp. bit_or (bit_and tmp 0xe3) (vhf_track freq))

  set_filters : ℕ → Attempt S
  unfolding update ◌and_then◌
  set_filters freq =
      if ltb freq 300000000
      then update 0x07 (λ tmp. bit_or tmp 0x10) and_then update 0x14 (λ tmp. bit_and tmp 0x1f)
      else update 0x07 (λ tmp. bit_and tmp 0xef)
        and_then update 0x14 (λ tmp. bit_or (bit_and tmp 0x1f) 0x40)

  program : ℕ → Option (List ℕ) → Attempt S
  unfolding update writeregs writereg read_voltage ◌and_then◌
  program freq none s = (false, s)
  program freq (some regs) s =
      (writeregs b 1 regs
          and_then update 0x11
              (λ tmp. if (multi_for freq).0 == 64 then bit_or tmp 0x04 else bit_and tmp 0xfb)
          and_then writereg b 0x0e 0x80
          and_then writereg b 0x0e 0x00
          and_then writereg b 0x0e 0x00
          and_then read_voltage b (vco_select (f_vco freq)) (get_or regs 5 0))
        s

  unfoldable pub set_params : ℕ → ℕ → ℕ → Attempt S
  unfolding set_vhf_track set_filters pll_registers program ◌and_then◌
  set_params clock freq bandwidth =
      set_vhf_track freq
      and_then set_filters freq
      and_then program freq (pll_registers (clock / 2) freq bandwidth)

  -- `manual` is the test of the argument.
  unfoldable pub set_gain_mode : Bool → Attempt S
  unfolding update_anyway writereg
  set_gain_mode manual =
      update_anyway 0x0d (λ tmp. if manual then bit_or tmp 0x08 else bit_clear 8 tmp 0x08)
      and_also writereg b 0x13 0x0a

  unfoldable pub set_lna_gain : ℤ → Attempt S
  unfolding update_anyway lna_row
  set_lna_gain gain =
      update_anyway 0x14 (λ tmp. bit_or (bit_and tmp 0xe0) (row_code (lna_row lna_gains gain)))

  -- The byte that forces the calibration.
  abbrev forced : ℤ → ℕ
  forced val = if ltb_ℤ (pos 15) val then 0x0f else if is_negative val then 0x00 else pos_part val

  recalibrated : ℤ → Option ℕ × S → Bool × S
  unfolding writereg ◌and_then◌ ◌+ℤ◌
  recalibrated rc_val (none, s) = (false, s)
  recalibrated rc_val (some rc_cal, s) =
      (writereg b 0x0d 0x11 and_then writereg b 0x10 (forced (pos (bit_and rc_cal 0x0f) +ℤ rc_val)))
        s

  calibration_read : ℤ → Attempt S
  unfolding readreg recalibrated
  calibration_read rc_val s = recalibrated rc_val (readreg b 0x10 s)

  unfoldable pub rc_cal_add : ℤ → Attempt S
  unfolding writereg calibration_read ◌and_then◌
  rc_cal_add rc_val = writereg b 0x10 0x00 and_then calibration_read rc_val

  unfoldable pub rc_cal_reset : Attempt S
  unfolding writereg ◌and_then◌
  rc_cal_reset = writereg b 0x0d 0x01 and_then writereg b 0x10 0x00
