-- ===== src/E4k/Regs.antt =====
-- Register access of tuner_e4k.c: e4k_reg_write, e4k_reg_read, e4k_reg_set_mask, e4k_field_write,
-- e4k_field_read.
pub mod Fields
pub mod Laws
pub mod Steady
use rtlsdrwrapper.Base.{ℕ, ◌-◌, ◌^◌, bit_and, Bool, true, false, List, [], ◌∷◌}
use rtlsdrwrapper.Base.{◌==◌, if◌then◌else◌, get_or, u8, ◌<<<◌, ◌>>>◌}
use rtlsdrwrapper.Base.Bits.{merge}
use rtlsdrwrapper.Base.Int.{ℤ, pos, negsuc}
use rtlsdrwrapper.Base.Words.{to_word}
use rtlsdrwrapper.R82xx.State.{Bus}
use rtlsdrwrapper.R82xx.Shadow.{returned}
use rtlsdrwrapper.Base.Int.{is_negative}
use rtlsdrwrapper.E4k.State.{E4k, Command, ◌>>=◌, pure}

-- `struct reg_field`
pub record RegField : Type 0 where
  pub reg : ℕ
  pub shift : ℕ
  pub width : ℕ

abbrev pub field_at : ℕ → ℕ → ℕ → RegField
field_at reg shift width = record { reg = reg; shift = shift; width = width }

abbrev pub width2mask : List ℕ
width2mask = 0 ∷ 1 ∷ 3 ∷ 7 ∷ 0xf ∷ 0x1f ∷ 0x3f ∷ 0x7f ∷ 0xff ∷ []

abbrev pub width_mask : RegField → ℕ
width_mask field = get_or width2mask field.width 0

abbrev pub field_mask : RegField → ℕ
field_mask field = u8 (width_mask field <<< field.shift)

-- `rc < 1`
abbrev pub below_one : ℤ → Bool
below_one (pos n) = n == 0
below_one (negsuc n) = true

module _ {S : Type 0} (b : Bus S) where
  unfoldable pub reg_write : ℕ → ℕ → Command S ℤ
  reg_write reg val e =
      let (r, dev) = b.i2c_write_fn e.i2c_addr (reg ∷ val ∷ []) e.rtl_dev in
      (if returned r 2 then pos 0 else negsuc 0, record e { rtl_dev = dev })

  unfoldable pub reg_read : ℕ → Command S ℤ
  reg_read reg e =
      let (r, dev) = b.i2c_write_fn e.i2c_addr (reg ∷ []) e.rtl_dev in
      let (r', bytes, dev') = b.i2c_read_fn e.i2c_addr 1 dev in
      if below_one r
      then (negsuc 0, record e { rtl_dev = dev })
      else if below_one r'
      then (negsuc 0, record e { rtl_dev = dev' })
      else (pos (get_or bytes 0 reg), record e { rtl_dev = dev' })

  -- The cast of a failed read to eight bits is 0xff.
  unfoldable pub masked_write : ℕ → ℕ → ℕ → ℕ → Command S ℤ
  unfolding reg_write
  masked_write reg mask val tmp =
      if bit_and tmp mask == val then pure (pos 0) else reg_write reg (merge 8 tmp val mask)

  unfoldable pub reg_set_mask : ℕ → ℕ → ℕ → Command S ℤ
  unfolding reg_read masked_write ◌>>=◌
  reg_set_mask reg mask val = do tmp ← reg_read reg; masked_write reg mask val (to_word 8 tmp)

  unfoldable pub field_write : RegField → ℕ → Command S ℤ
  unfolding reg_read reg_set_mask ◌>>=◌
  field_write field val = do
    rc ← reg_read field.reg
    if is_negative rc
        then pure rc
        else reg_set_mask field.reg (field_mask field) (u8 (val <<< field.shift))

  unfoldable pub field_part : RegField → ℤ → ℤ
  field_part field (pos v) = pos (bit_and (v >>> field.shift) (width_mask field))
  field_part field (negsuc n) = negsuc n

  unfoldable pub field_read : RegField → Command S ℤ
  unfolding reg_read field_part ◌>>=◌
  field_read field = do rc ← reg_read field.reg; pure (field_part field rc)
