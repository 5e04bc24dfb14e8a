-- ===== src/E4k/Regs/Fields.antt =====
-- Fields of registers of tuner_e4k.c: what is written to a field is read back.
use rtlsdrwrapper.Base.{
  ℕ, ◌-◌, ◌*◌, ◌/◌, ◌^◌, ◌≤◌, ◌<◌, ◌≡◌, ◌≢◌, refl, sym, ap, subst, ◌∙◌, arith, inl, inr,
}
use rtlsdrwrapper.Base.{bit_and, ◌==◌, if_ind, u8, ◌<<<◌, ◌>>>◌}
use native.Mathlib.Nat.{mul-div_left, mul-le-mul_right, one-le-pow, mod-eq_of_lt}
use rtlsdrwrapper.Base.Bits.{bit_and-shifted, bit_and_low, merge}
use rtlsdrwrapper.Base.Words.{to_word}
use rtlsdrwrapper.Base.Int.{ℤ, pos, negsuc}
use rtlsdrwrapper.R82xx.State.{Bus}
use rtlsdrwrapper.Base.Int.{is_negative}
use rtlsdrwrapper.E4k.State.{E4k, Command, ◌>>=◌, pure}
use rtlsdrwrapper.E4k.Regs.{
  RegField, width_mask, field_mask, reg_read, reg_write, masked_write, reg_set_mask, field_write,
  field_part, field_read,
}
use rtlsdrwrapper.E4k.Regs.Laws.{HasBytes, HasChip, byte_of, reg_read-Reads, reg_set_mask-Masked}

-- A field inside a byte.
pub record IsField (field : RegField) : Type 0 where
  pub width_law : width_mask field ≡ 2 ^ field.width - 1
  pub mask_law : field_mask field ≡ width_mask field <<< field.shift
  pub byte_law : field_mask field < 256

two_pow-pos : (k : ℕ) → 0 < 2 ^ k
two_pow-pos k = omega (arith, one-le-pow k 2)

-- Equal bytes under the mask of a field have equal fields.
field_of :
    (field : RegField) (byte i : ℕ)
    → IsField field
    → i < 2 ^ field.width
    → bit_and byte (field_mask field) ≡ bit_and (i <<< field.shift) (field_mask field)
    → bit_and (byte >>> field.shift) (width_mask field) ≡ i
field_of field byte i good fits same =
    sym (mul-div_left _ (two_pow-pos field.shift))
    ∙ ap (λ (t : ℕ). t / 2 ^ field.shift) shifted
    ∙ mul-div_left _ (two_pow-pos field.shift)
    ∙ ap (λ x. bit_and x (width_mask field)) (mul-div_left i (two_pow-pos field.shift))
    ∙ ap (bit_and i) good.width_law
    ∙ bit_and_low field.width i
    ∙ mod-eq_of_lt fits
  where
    at_mask :
        (a : ℕ)
        → bit_and a (field_mask field)
          ≡ bit_and (a >>> field.shift) (width_mask field) <<< field.shift
    at_mask a = ap (bit_and a) good.mask_law ∙ bit_and-shifted field.shift a (width_mask field)

    shifted :
        bit_and (byte >>> field.shift) (width_mask field) <<< field.shift
        ≡ bit_and ((i <<< field.shift) >>> field.shift) (width_mask field) <<< field.shift
    shifted = sym (at_mask byte) ∙ same ∙ at_mask (i <<< field.shift)

-- A value that fits its field is not cut off.
shifted_fits :
    (field : RegField) (val : ℕ)
    → IsField field
    → val < 2 ^ field.width
    → u8 (val <<< field.shift) ≡ val <<< field.shift
shifted_fits field val good fits = omega (
  arith,
  mul-le-mul_right (2 ^ field.shift) below,
  ap (λ (t : ℕ). t * 2 ^ field.shift) good.width_law,
  good.mask_law,
  good.byte_law,
)
  where
    below : val ≤ 2 ^ field.width - 1
    below = omega arith

module _ {S : Type 0} (b : Bus S) (reg_of : S → ℕ → ℕ) where
  -- No read of the register fails.
  abbrev pub Readable : ℕ → ℕ → Type 0
  Readable reg addr = (e : E4k S) → e.i2c_addr ≡ addr → (reg_read b reg e).0 ≢ negsuc 0

  reg_set_mask-addr :
      (reg mask val : ℕ) (e : E4k S)
      → HasChip b reg_of e
      → (reg_set_mask b reg mask val e).1.i2c_addr ≡ e.i2c_addr
  unfolding reg_set_mask masked_write reg_write ◌>>=◌
  reg_set_mask-addr reg mask val e chip =
      let (rc, e1) = reg_read b reg e in
      if_ind (λ (c : Command S ℤ). (c e1).1.i2c_addr ≡ e.i2c_addr)
        (bit_and (to_word 8 rc) mask == val) (pure (pos 0))
        (reg_write b reg (merge 8 (to_word 8 rc) val mask))
        (λ _. (reg_read-Reads b reg_of reg e chip).2) (λ _. (reg_read-Reads b reg_of reg e chip).2)

  masked_field-read :
      (field : RegField) (val : ℕ) (e : E4k S)
      → IsField field
      → HasChip b reg_of e
      → val < 2 ^ field.width
      → Readable field.reg e.i2c_addr
      → (let (rc, e') = reg_set_mask b field.reg (field_mask field) (u8 (val <<< field.shift)) e in
          rc ≡ pos 0 → (field_read b field e').0 ≡ pos val)
  unfolding field_read field_part ◌>>=◌
  masked_field-read field val e good chip fits readable done =
      elim (reg_read-Reads b reg_of field.reg e' (subst (HasBytes b reg_of) (sym same) chip)).0 [
        | inl failed ↦ absurd (readable e' same failed)
        | inr read ↦ ap (field_part b field) read ∙ ap pos (field_of field _ val good fits masked)
      ]
    where
      e' : E4k S
      e' = (reg_set_mask b field.reg (field_mask field) (u8 (val <<< field.shift)) e).1

      same : e'.i2c_addr ≡ e.i2c_addr
      same = reg_set_mask-addr field.reg (field_mask field) (u8 (val <<< field.shift)) e chip

      masked :
          bit_and (byte_of b reg_of e' field.reg) (field_mask field)
          ≡ bit_and (val <<< field.shift) (field_mask field)
      masked =
          (reg_set_mask-Masked b reg_of field.reg (field_mask field) (u8 (val <<< field.shift)) e
            chip good.byte_law (readable e refl) done).0
          ∙ ap (λ x. bit_and x (field_mask field)) (shifted_fits field val good fits)

  -- For a field inside a byte, a value that fits it and a chip whose register can be read, a field that
  -- was written with the result 0 is read back with the value written.
  pub field_write-field_read :
      (field : RegField) (val : ℕ) (e : E4k S)
      → IsField field
      → HasChip b reg_of e
      → val < 2 ^ field.width
      → Readable field.reg e.i2c_addr
      → (field_write b field val e).0 ≡ pos 0
      → (field_read b field (field_write b field val e).1).0 ≡ pos val
  unfolding field_write ◌>>=◌
  field_write-field_read field val e good chip fits readable =
      let (rc, e1) = reg_read b field.reg e in
      let (_, _, same) = reg_read-Reads b reg_of field.reg e chip in
      if_ind (λ (c : Command S ℤ). (c e1).0 ≡ pos 0 → (field_read b field (c e1).1).0 ≡ pos val)
        (is_negative rc) (pure rc)
        (reg_set_mask b field.reg (field_mask field) (u8 (val <<< field.shift)))
        (λ neg zero. absurd (ground arith))
        (λ _.
          masked_field-read field val e1 good (subst (HasBytes b reg_of) (sym same) chip) fits
            (λ e' at. readable e' (at ∙ same)))
