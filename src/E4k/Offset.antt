-- ===== src/E4k/Offset.antt =====
-- The DC offset functions of tuner_e4k.c.
use rtlsdrwrapper.Base.{
  ℕ, ◌+◌, bit_and, bit_or, List, [], ◌∷◌, Bool, ◌||◌, if◌then◌else◌, u8, ◌<<<◌, ◌>>>◌,
}
use rtlsdrwrapper.Base.Int.{ℤ, pos, negsuc, ltb_ℤ}
use rtlsdrwrapper.Base.Words.{to_word}
use rtlsdrwrapper.R82xx.State.{Bus}
use rtlsdrwrapper.Base.Int.{is_negative}
use rtlsdrwrapper.E4k.State.{Command, ◌>>=◌, ◌>>◌, pure, einval}
use rtlsdrwrapper.E4k.Regs.{reg_write, reg_read, reg_set_mask}
use rtlsdrwrapper.E4k.Gain.{if_gain_set, mixer_gain_set}

abbrev outside : ℤ → ℕ → Bool
outside v limit = is_negative v || ltb_ℤ (pos limit) v

-- `struct gain_comb`
pub record GainComb : Type 0 where
  pub mixer_gain : ℤ
  pub if1_gain : ℤ
  pub reg : ℕ

abbrev comb : ℤ → ℤ → ℕ → GainComb
comb m i r = record { mixer_gain = m; if1_gain = i; reg = r }

abbrev pub dc_gain_comb : List GainComb
dc_gain_comb =
    comb (pos 4) (negsuc 2) 0x50
    ∷ comb (pos 4) (pos 6) 0x51
    ∷ comb (pos 12) (negsuc 2) 0x52
    ∷ comb (pos 12) (pos 6) 0x53
    ∷ []

-- `TO_LUT`, stored in eight bits.
abbrev pub to_lut : ℕ → ℕ → ℕ
to_lut offset range = u8 (bit_or offset (range <<< 6))

module _ {S : Type 0} (b : Bus S) where
  -- `r = m; if (r < 0) return r; n`
  or_return : Command S ℤ → Command S ℤ → Command S ℤ
  unfolding ◌>>=◌
  or_return m n = do r ← m; if is_negative r then pure r else n

  pub manual_dc_offset : ℤ → ℤ → ℤ → ℤ → Command S ℤ
  unfolding reg_set_mask or_return
  manual_dc_offset iofs irange qofs qrange =
      if outside iofs 0x3f || outside irange 0x03 || outside qofs 0x3f || outside qrange 0x03
      then pure einval
      else or_return (reg_set_mask b 0x2a 0x3f (to_word 8 iofs)) (
          or_return (reg_set_mask b 0x2b 0x3f (to_word 8 qofs))
            (reg_set_mask b 0x2c 0x33 (u8 (bit_or (to_word 8 qrange <<< 4) (to_word 8 irange)))))

  pub dc_offset_calibrate : Command S ℤ
  unfolding reg_set_mask reg_write ◌>>◌
  dc_offset_calibrate = do reg_set_mask b 0x2d 0x04 0x04; reg_write b 0x29 0x01

  calibrate_comb : GainComb → Command S (Unit {0})
  unfolding mixer_gain_set if_gain_set dc_offset_calibrate reg_read reg_write ◌>>=◌ ◌>>◌
  calibrate_comb c = do
    mixer_gain_set b c.mixer_gain
    if_gain_set b 1 c.if1_gain
    dc_offset_calibrate
    i ← reg_read b 0x2a
    q ← reg_read b 0x2b
    r ← reg_read b 0x2c
    let range = to_word 8 r
    reg_write b c.reg (to_lut (bit_and (to_word 8 q) 0x3f) (bit_and (range >>> 4) 0x3))
    reg_write b (u8 (c.reg + 0x10)) (to_lut (bit_and (to_word 8 i) 0x3f) (bit_and range 0x3))
    pure tt

  calibrate_all : List GainComb → Command S ℤ
  unfolding calibrate_comb ◌>>◌
  calibrate_all [] = pure (pos 0)
  calibrate_all (c ∷ cs) = do calibrate_comb c; calibrate_all cs

  pub dc_offset_gen_table : Command S ℤ
  unfolding reg_set_mask if_gain_set calibrate_all ◌>>◌
  dc_offset_gen_table = do
    reg_set_mask b 0x20 1 0
    reg_set_mask b 0x1a 0xf 0
    if_gain_set b 2 (pos 9)
    if_gain_set b 3 (pos 9)
    if_gain_set b 4 (pos 2)
    if_gain_set b 5 (pos 15)
    if_gain_set b 6 (pos 15)
    calibrate_all dc_gain_comb
