-- ===== src/E4k/Gain.antt =====
-- The gain control of tuner_e4k.c. An `int8_t` is an integer; what a field takes of it is its low bits.

use rtlsdrwrapper.Base.{
  ℕ, zero, suc, ◌+◌, bit_or, List, [], ◌∷◌, Bool, true, false, Option, none, some,
}
use rtlsdrwrapper.Base.{if◌then◌else◌, u8, ◌<<<◌}
use rtlsdrwrapper.Base.Int.{ℤ, pos, negsuc, ltb_ℤ, eq_ℤ}
use rtlsdrwrapper.Base.Words.{to_word}
use rtlsdrwrapper.R82xx.State.{Bus}
use rtlsdrwrapper.Base.Int.{is_negative}
use rtlsdrwrapper.E4k.State.{Command, ◌>>◌, pure, einval}
use rtlsdrwrapper.E4k.Regs.{RegField, field_at, field_mask, reg_set_mask}

-- The rows of `if_stage_gain`; the stages from 1 to 6.
abbrev pub if_stage_gain : ℕ → List ℤ
if_stage_gain zero = []
if_stage_gain (suc zero) = negsuc 2 ∷ pos 6 ∷ []
if_stage_gain (suc (suc zero)) = pos 0 ∷ pos 3 ∷ pos 6 ∷ pos 9 ∷ []
if_stage_gain (suc (suc (suc zero))) = pos 0 ∷ pos 3 ∷ pos 6 ∷ pos 9 ∷ []
if_stage_gain (suc (suc (suc (suc zero)))) = pos 0 ∷ pos 1 ∷ pos 2 ∷ pos 2 ∷ []
if_stage_gain (suc (suc (suc (suc (suc zero))))) =
    pos 3 ∷ pos 6 ∷ pos 9 ∷ pos 12 ∷ pos 15 ∷ pos 15 ∷ pos 15 ∷ pos 15 ∷ []
if_stage_gain (suc (suc (suc (suc (suc (suc zero)))))) =
    pos 3 ∷ pos 6 ∷ pos 9 ∷ pos 12 ∷ pos 15 ∷ pos 15 ∷ pos 15 ∷ pos 15 ∷ []
if_stage_gain (suc (suc (suc (suc (suc (suc (suc n))))))) = []

abbrev pub if_stage_gain_regs : ℕ → RegField
if_stage_gain_regs zero = field_at 0 0 0
if_stage_gain_regs (suc zero) = field_at 0x16 0 1
if_stage_gain_regs (suc (suc zero)) = field_at 0x16 1 2
if_stage_gain_regs (suc (suc (suc zero))) = field_at 0x16 3 2
if_stage_gain_regs (suc (suc (suc (suc zero)))) = field_at 0x16 5 2
if_stage_gain_regs (suc (suc (suc (suc (suc zero))))) = field_at 0x17 0 3
if_stage_gain_regs (suc (suc (suc (suc (suc (suc n)))))) = field_at 0x17 3 3

abbrev pub lnagain : List (ℤ × ℕ)
lnagain =
    (negsuc 49, 0)
    ∷ (negsuc 24, 1)
    ∷ (pos 0, 4)
    ∷ (pos 25, 5)
    ∷ (pos 50, 6)
    ∷ (pos 75, 7)
    ∷ (pos 100, 8)
    ∷ (pos 125, 9)
    ∷ (pos 150, 10)
    ∷ (pos 175, 11)
    ∷ (pos 200, 12)
    ∷ (pos 250, 13)
    ∷ (pos 300, 14)
    ∷ []

abbrev pub enhgain : List ℤ
enhgain = pos 10 ∷ pos 30 ∷ pos 50 ∷ pos 70 ∷ []

-- The second number of the pair with this gain.
unfoldable pub lna_code : List (ℤ × ℕ) → ℤ → Option ℕ
lna_code [] gain = none
lna_code ((g, c) ∷ rows) gain = if eq_ℤ g gain then some c else lna_code rows gain

-- The index of the first entry with this value.
pub index_of : List ℤ → ℤ → ℕ → Option ℕ
index_of [] val i = none
index_of (x ∷ xs) val i = if eq_ℤ x val then some i else index_of xs val (i + 1)

-- `none` is -EINVAL, for a stage or a value that is not there.
pub find_stage_gain : ℕ → ℤ → Option ℕ
unfolding index_of
find_stage_gain stage val = index_of (if_stage_gain stage) val 0

module _ {S : Type 0} (b : Bus S) where
  -- The result of the write is dropped.
  unfoldable pub set_lna_code : Option ℕ → ℤ → Command S ℤ
  unfolding reg_set_mask ◌>>◌
  set_lna_code none gain = pure einval
  set_lna_code (some c) gain = do reg_set_mask b 0x14 0xf c; pure gain

  unfoldable pub set_lna_gain : ℤ → Command S ℤ
  unfolding lna_code set_lna_code
  set_lna_gain gain = set_lna_code (lna_code lnagain gain) gain

  pub set_enh_gain : ℤ → Command S ℤ
  unfolding index_of reg_set_mask ◌>>◌
  set_enh_gain gain = elim (index_of enhgain gain 0) [
    | none ↦ (reg_set_mask b 0x24 0x7 0 >> pure (if eq_ℤ (pos 0) gain then pos 0 else einval))
    | some i ↦ (reg_set_mask b 0x24 0x7 (bit_or 1 (i <<< 1)) >> pure gain)
  ]

  unfoldable pub enable_manual_gain : Bool → Command S ℤ
  unfolding reg_set_mask ◌>>◌
  enable_manual_gain true = do reg_set_mask b 0x1a 0xf 0; reg_set_mask b 0x20 1 0; pure (pos 0)
  enable_manual_gain false = do
    reg_set_mask b 0x1a 0xf 9
    reg_set_mask b 0x20 1 1
    reg_set_mask b 0x24 0x7 0
    pure (pos 0)

  unfoldable pub if_gain_set : ℕ → ℤ → Command S ℤ
  unfolding find_stage_gain reg_set_mask
  if_gain_set stage value =
      let field = if_stage_gain_regs stage in
      elim (find_stage_gain stage value) [
        | none ↦ pure einval
        | some i ↦ reg_set_mask b field.reg (field_mask field) (u8 (i <<< field.shift))
      ]

  unfoldable pub mixer_gain_set : ℤ → Command S ℤ
  unfolding reg_set_mask
  mixer_gain_set value =
      if eq_ℤ value (pos 4)
      then reg_set_mask b 0x15 1 0
      else if eq_ℤ value (pos 12)
      then reg_set_mask b 0x15 1 1
      else pure einval

  pub commonmode_set : ℤ → Command S ℤ
  unfolding reg_set_mask
  commonmode_set value =
      if is_negative value
      then pure einval
      else if ltb_ℤ (pos 7) value
      then pure einval
      else reg_set_mask b 0x2f 7 (to_word 8 value)
