-- ===== src/R82xx/Gain.antt =====
-- `r82xx_set_gain` and `r82xx_read_gain` of tuner_r82xx.c.
pub mod Laws
pub mod Search
use rtlsdrwrapper.Base.{ℕ, zero, suc, ◌+◌, ◌*◌, ◌/◌, ◌^◌, Bool, true, false, List, [], ◌∷◌}
use rtlsdrwrapper.Base.{if◌then◌else◌, get_or, map, ◌++◌, bit_and, u8, ◌<<<◌, ◌>>>◌}
use rtlsdrwrapper.Base.Int.{ℤ, pos, negsuc, ◌+ℤ◌, leb_ℤ}
use rtlsdrwrapper.R82xx.State.{Priv, Bus, Driver, ◌>>=◌, ◌>>◌, pure}
use rtlsdrwrapper.R82xx.Shadow.{write_reg_mask, read}

abbrev pub lna_gain_steps : List ℤ
lna_gain_steps =
    map pos (0 ∷ 9 ∷ 13 ∷ 40 ∷ 38 ∷ 13 ∷ 31 ∷ 22 ∷ 26 ∷ 31 ∷ 26 ∷ 14 ∷ 19 ∷ 5 ∷ 35 ∷ 13 ∷ [])

-- The last step is -8.
abbrev pub mixer_gain_steps : List ℤ
mixer_gain_steps =
    map pos (0 ∷ 5 ∷ 10 ∷ 10 ∷ 19 ∷ 9 ∷ 10 ∷ 25 ∷ 17 ∷ 10 ∷ 8 ∷ 16 ∷ 13 ∷ 6 ∷ 3 ∷ [])
    ++ (negsuc 7 ∷ [])

pub record GainIndex : Type 0 where
  pub lna_index : ℕ
  pub mix_index : ℕ
  pub total_gain : ℤ

-- The loop over the gain steps, with the rounds left.
unfoldable pub gain_search : ℕ → ℤ → GainIndex → GainIndex
gain_search zero gain g = g
gain_search (suc rounds) gain g =
    let lna = g.lna_index + 1 in
    let total = g.total_gain +ℤ get_or lna_gain_steps lna (pos 0) in
    let mix = g.mix_index + 1 in
    let total' = total +ℤ get_or mixer_gain_steps mix (pos 0) in
    let rest =
      gain_search rounds gain (record { lna_index = lna; mix_index = mix; total_gain = total' }) in
    if leb_ℤ gain g.total_gain
    then g
    else if leb_ℤ gain total
    then record { lna_index = lna; mix_index = g.mix_index; total_gain = total }
    else rest

unfoldable pub find_gain : ℤ → GainIndex
unfolding gain_search ◌+ℤ◌
find_gain gain = gain_search 15 gain (record { lna_index = 0; mix_index = 0; total_gain = pos 0 })

module _ {S : Type 0} (b : Bus S) where
  pub read_gain : Driver S ℕ
  read_gain = do
    bytes ← read b 0x00 4
    let v = get_or bytes 3 0
    pure ((bit_and v 0x0f <<< 1) + (bit_and v 0xf0 >>> 4))

  pub set_gain : Bool → ℤ → Driver S (Unit {0})
  set_gain true gain = do
    write_reg_mask b 0x05 0x10 0x10
    write_reg_mask b 0x07 0 0x10
    bytes ← read b 0x00 4
    write_reg_mask b 0x0c 0x08 0x9f
    let g = find_gain gain
    write_reg_mask b 0x05 g.lna_index 0x0f
    write_reg_mask b 0x07 g.mix_index 0x0f
  set_gain false gain = do
    write_reg_mask b 0x05 0 0x10
    write_reg_mask b 0x07 0x10 0x10
    write_reg_mask b 0x0c 0x0b 0x9f
