-- ===== src/E4k/Regs/Laws.antt =====
-- Masked writes of tuner_e4k.c against a chip with registers of a byte each.
use rtlsdrwrapper.Base.{
  ℕ, ◌+◌, ◌-◌, ◌%◌, ◌^◌, ◌<◌, ◌≡◌, ◌≢◌, refl, sym, ap, subst, ◌∙◌, arith, ◌⊎◌, inl, inr,
}
use rtlsdrwrapper.Base.{
  bit_and, true, false, [], ◌∷◌, ◌==◌, if◌then◌else◌, if_ind, get_or, bit_clear, ==_iff,
}
use rtlsdrwrapper.Base.Bits.{
  merge, merge_inside, merge_outside, merge_ones, ones-bit_and, bit_and-bit_and, bit_or_lt,
  bit_and_le,
}
use rtlsdrwrapper.Base.Int.{ℤ, pos, negsuc}
use rtlsdrwrapper.Base.Words.{to_word}
use rtlsdrwrapper.R82xx.State.{Bus}
use rtlsdrwrapper.R82xx.Shadow.{returned}
use rtlsdrwrapper.R82xx.Shadow.Coherent.{returned→eq}
use rtlsdrwrapper.E4k.State.{E4k, Command, ◌>>=◌, pure}
use rtlsdrwrapper.E4k.Regs.{below_one, reg_write, reg_read, masked_write, reg_set_mask}

-- The device at I2C address `addr` has registers of a byte: a message of a register number and a
-- byte that returns 2 stores the byte, one of a register number selects it, and a read of one byte that
-- succeeds gives the selected register. Neither of these two changes a register.
pub record HasBytes {S : Type 0} (b : Bus S) (reg_of : S → ℕ → ℕ) (addr : ℕ) : Type 0 where
  pub byte_law : (d : S) (j : ℕ) → reg_of d j < 256
  pub store_law :
      (reg val : ℕ) (d : S)
      → val < 256
      → (b.i2c_write_fn addr (reg ∷ val ∷ []) d).0 ≡ pos 2
      → (j : ℕ)
      → reg_of (b.i2c_write_fn addr (reg ∷ val ∷ []) d).1 j ≡ (if j == reg then val else reg_of d j)
  pub select_law :
      (reg : ℕ) (d : S) (j : ℕ) → reg_of (b.i2c_write_fn addr (reg ∷ []) d).1 j ≡ reg_of d j
  pub keep_law : (d : S) (j : ℕ) → reg_of (b.i2c_read_fn addr 1 d).2 j ≡ reg_of d j
  pub read_law :
      (reg : ℕ) (d : S)
      → below_one (b.i2c_write_fn addr (reg ∷ []) d).0 ≡ false
      → below_one (b.i2c_read_fn addr 1 (b.i2c_write_fn addr (reg ∷ []) d).1).0 ≡ false
      → get_or (b.i2c_read_fn addr 1 (b.i2c_write_fn addr (reg ∷ []) d).1).1 0 reg ≡ reg_of d reg

module _ {S : Type 0} (b : Bus S) (reg_of : S → ℕ → ℕ) where
  abbrev pub byte_of : E4k S → ℕ → ℕ
  byte_of e j = reg_of e.rtl_dev j

  abbrev pub HasChip : E4k S → Type 0
  HasChip e = HasBytes b reg_of e.i2c_addr

  -- What a read gives.
  abbrev Reads : ℕ → E4k S → ℤ × E4k S → Type 0
  Reads reg e (rc, e') =
      ((rc ≡ negsuc 0) ⊎ (rc ≡ pos (byte_of e reg)))
      × ((j : ℕ) → byte_of e' j ≡ byte_of e j)
      × (e'.i2c_addr ≡ e.i2c_addr)

  pub reg_read-Reads : (reg : ℕ) (e : E4k S) → HasChip e → Reads reg e (reg_read b reg e)
  unfolding reg_read
  reg_read-Reads reg e chip =
      if_ind (Reads reg e) (below_one (b.i2c_write_fn e.i2c_addr (reg ∷ []) e.rtl_dev).0) _ _
        (λ low. (inl refl, chip.select_law reg e.rtl_dev, refl))
        (λ high.
          if_ind (Reads reg e) (below_one (b.i2c_read_fn e.i2c_addr 1 dev).0) _ _
            (λ low. (inl refl, kept, refl))
            (λ high'. (inr (ap pos (chip.read_law reg e.rtl_dev high high')), kept, refl)))
    where
      dev : S
      dev = (b.i2c_write_fn e.i2c_addr (reg ∷ []) e.rtl_dev).1

      kept : (j : ℕ) → reg_of (b.i2c_read_fn e.i2c_addr 1 dev).2 j ≡ byte_of e j
      kept j = chip.keep_law dev j ∙ chip.select_law reg e.rtl_dev j

  -- A write that returns 0 stores its byte.
  abbrev Stores : ℕ → ℕ → E4k S → ℤ × E4k S → Type 0
  Stores reg val e (rc, e') =
      rc ≡ pos 0 → (j : ℕ) → byte_of e' j ≡ (if j == reg then val else byte_of e j)

  reg_write-Stores :
      (reg val : ℕ) (e : E4k S) → HasChip e → val < 256 → Stores reg val e (reg_write b reg val e)
  unfolding reg_write
  reg_write-Stores reg val e chip small =
      let (rc, dev) = b.i2c_write_fn e.i2c_addr (reg ∷ val ∷ []) e.rtl_dev in
      if_ind (λ r. r ≡ pos 0 → (j : ℕ) → reg_of dev j ≡ (if j == reg then val else byte_of e j))
        (returned rc 2) (pos 0) (negsuc 0)
        (λ good _. chip.store_law reg val e.rtl_dev small (returned→eq rc 2 good))
        (λ _ bad. absurd (ground arith))

  -- What a masked write of a byte that was read as `tmp` does: nothing, or a store of the merged byte.
  abbrev Merges : ℕ → ℕ → ℕ → ℕ → E4k S → E4k S → Type 0
  Merges reg mask val tmp e e' =
      ((bit_and tmp mask ≡ val) × ((j : ℕ) → byte_of e' j ≡ byte_of e j))
      ⊎ ((j : ℕ) → byte_of e' j ≡ (if j == reg then merge 8 tmp val mask else byte_of e j))

  merge_lt : (a v m : ℕ) → m < 256 → merge 8 a v m < 256
  merge_lt a v m h =
      bit_or_lt 8 (bit_clear 8 a m) (bit_and v m)
        (omega (arith, bit_and_le 8 a (255 - m) (omega arith))) (omega (arith, bit_and_le 8 v m h))

  masked_write-Merges :
      (reg mask val tmp : ℕ) (e : E4k S)
      → HasChip e
      → mask < 256
      → (masked_write b reg mask val tmp e).0 ≡ pos 0
      → Merges reg mask val tmp e (masked_write b reg mask val tmp e).1
  unfolding masked_write
  masked_write-Merges reg mask val tmp e chip small =
      if_ind (λ (c : Command S ℤ). (c e).0 ≡ pos 0 → Merges reg mask val tmp e (c e).1)
        (bit_and tmp mask == val) (pure (pos 0)) (reg_write b reg (merge 8 tmp val mask))
        (λ same _. inl ((==_iff (bit_and tmp mask) val).0 same, λ j. refl))
        (λ _ good. inr (stores good))
    where
      stores : Stores reg (merge 8 tmp val mask) e (reg_write b reg (merge 8 tmp val mask) e)
      stores = reg_write-Stores reg (merge 8 tmp val mask) e chip (merge_lt tmp val mask small)

  after_read :
      (reg mask val tmp : ℕ) (e e1 e2 : E4k S)
      → ((j : ℕ) → byte_of e1 j ≡ byte_of e j)
      → Merges reg mask val tmp e1 e2
      → Merges reg mask val tmp e e2
  after_read reg mask val tmp e e1 e2 kept (inl (same, h)) = inl (same, λ j. h j ∙ kept j)
  after_read reg mask val tmp e e1 e2 kept (inr h) = inr (λ j. simp (h j, kept j))

  set_mask-Merges :
      (reg mask val : ℕ) (e : E4k S)
      → HasChip e
      → mask < 256
      → (reg_set_mask b reg mask val e).0 ≡ pos 0
      → Merges reg mask val (to_word 8 (reg_read b reg e).0) e (reg_set_mask b reg mask val e).1
  unfolding reg_set_mask ◌>>=◌
  set_mask-Merges reg mask val e chip small good =
      let (rc, e1) = reg_read b reg e in
      let (_, kept, same) = reg_read-Reads reg e chip in
      after_read reg mask val (to_word 8 rc) e e1 (reg_set_mask b reg mask val e).1 kept (
        masked_write-Merges reg mask val (to_word 8 rc) e1
          (subst (HasBytes b reg_of) (sym same) chip) small good)

  -- The register has the value under the mask and its old bits outside; no other register changed.
  abbrev pub Masked : ℕ → ℕ → ℕ → E4k S → E4k S → Type 0
  Masked reg mask val e e' =
      (bit_and (byte_of e' reg) mask ≡ bit_and val mask)
      × (bit_clear 8 (byte_of e' reg) mask ≡ bit_clear 8 (byte_of e reg) mask)
      × ((j : ℕ) → j ≢ reg → byte_of e' j ≡ byte_of e j)

  Merges→Masked :
      (reg mask val : ℕ) (e e' : E4k S)
      → mask < 256
      → Merges reg mask val (byte_of e reg) e e'
      → Masked reg mask val e e'
  Merges→Masked reg mask val e e' small (inl (same, kept)) = (
    rw (kept reg, sym same) (sym (bit_and-bit_and 8 (byte_of e reg) mask small)),
    rw (kept reg) refl,
    λ j _. kept j,
  )
  Merges→Masked reg mask val e e' small (inr stored) = (
    rw (stored reg, here) (merge_inside 8 (byte_of e reg) val mask small),
    rw (stored reg, here) (merge_outside 8 (byte_of e reg) val mask small),
    λ j away. stored j ∙ ground arith,
  )
    where
      here : (reg == reg) ≡ true
      here = (==_iff reg reg).1 refl

  -- Where the read of the register does not fail and the masked write returns 0, the register has the
  -- value under the mask and its old bits outside the mask, and no other register has changed.
  pub reg_set_mask-Masked :
      (reg mask val : ℕ) (e : E4k S)
      → HasChip e
      → mask < 256
      → (reg_read b reg e).0 ≢ negsuc 0
      → (reg_set_mask b reg mask val e).0 ≡ pos 0
      → Masked reg mask val e (reg_set_mask b reg mask val e).1
  reg_set_mask-Masked reg mask val e chip small reads good = elim (reg_read-Reads reg e chip).0 [
    | inl failed ↦ absurd (reads failed)
    | inr read ↦
        (Merges→Masked reg mask val e (reg_set_mask b reg mask val e).1 small (
          subst (λ w. Merges reg mask val w e (reg_set_mask b reg mask val e).1)
            (ap (to_word 8) read ∙ byte) (set_mask-Merges reg mask val e chip small good)))
  ]
    where
      byte : byte_of e reg % 2 ^ 8 ≡ byte_of e reg
      byte = omega (arith, chip.byte_law e.rtl_dev reg)

  -- Where the read of the register fails and the masked write still returns 0, either nothing was
  -- written and the value is the mask, or the register was written with ones in all the bits outside
  -- the mask, whatever stood there.
  pub reg_set_mask-blind :
      (reg mask val : ℕ) (e : E4k S)
      → HasChip e
      → mask < 256
      → (reg_read b reg e).0 ≡ negsuc 0
      → (reg_set_mask b reg mask val e).0 ≡ pos 0
      → (val ≡ mask)
        ⊎ (byte_of (reg_set_mask b reg mask val e).1 reg ≡ 255 - mask + bit_and val mask)
  reg_set_mask-blind reg mask val e chip small failed good =
      elim (subst (λ w. Merges reg mask val w e (reg_set_mask b reg mask val e).1)
        (ap (to_word 8) failed) (set_mask-Merges reg mask val e chip small good)) [
          | inl (same, _) ↦ inl (sym same ∙ ones-bit_and 8 mask small)
          | inr stored ↦
              inr (stored reg ∙ rw ((==_iff reg reg).1 refl) (merge_ones 8 val mask small))
        ]
