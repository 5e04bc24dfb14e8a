-- ===== src/E4k/Pll/Chip.antt =====
-- The registers of the E4000's synthesizer behind `e4k_tune_params`.
use rtlsdrwrapper.Base.{
  ℕ, ◌+◌, ◌*◌, ◌≤◌, ◌<◌, ◌≡◌, refl, ◌∙◌, arith, ◌⊎◌, bit_and, [], ◌∷◌, ◌==◌, if◌then◌else◌, if_ind,
  inl, inr, u8, ◌<<<◌, ◌>>>◌,
}
use rtlsdrwrapper.Base.Bits.{merge, bit_and_low}
use rtlsdrwrapper.Base.Int.{ℤ, pos, is_negative}
use rtlsdrwrapper.Base.Words.{to_word}
use rtlsdrwrapper.R82xx.State.{Bus}
use rtlsdrwrapper.E4k.State.{E4k, PllParams, Band, band_number, Command, ◌>>=◌, ◌>>◌, pure}
use rtlsdrwrapper.E4k.Regs.{below_one, reg_write, reg_read, masked_write, reg_set_mask}
use rtlsdrwrapper.E4k.Filter.{rf_filter_set, choose_rf_filter}
use rtlsdrwrapper.E4k.Pll.{band_for, bias_for, keep_band, band_set, band_and_filter, tune_params}

-- The device at I2C address `addr` takes every write to the registers 9 to 13 of the synthesizer, and
-- nothing else changes them. The other registers, that of the lock bit among them, are free.
pub record HasSynth {S : Type 0} (b : Bus S) (addr : ℕ) : Type 0 where
  pub cell_of : S → ℕ → ℕ
  pub store_law :
      (reg val j : ℕ) (d : S)
      → 9 ≤ j
      → j ≤ 13
      → cell_of (b.i2c_write_fn addr (reg ∷ val ∷ []) d).1 j
        ≡ (if j == reg then val else cell_of d j)
  pub select_law :
      (reg j : ℕ) (d : S)
      → 9 ≤ j
      → j ≤ 13
      → cell_of (b.i2c_write_fn addr (reg ∷ []) d).1 j ≡ cell_of d j
  pub keep_law :
      (j : ℕ) (d : S) → 9 ≤ j → j ≤ 13 → cell_of (b.i2c_read_fn addr 1 d).2 j ≡ cell_of d j

module _ {S : Type 0} (b : Bus S) (addr : ℕ) (chip : HasSynth b addr) where
  -- The synthesizer's registers hold `cells`.
  record Holds (cells : ℕ → ℕ) (e : E4k S) : Type 0 where
    at_addr : e.i2c_addr ≡ addr
    same : (j : ℕ) → 9 ≤ j → j ≤ 13 → chip.cell_of e.rtl_dev j ≡ cells j

  module _ (cells : ℕ → ℕ) where
    reg_write-Holds :
        (reg val : ℕ) (e : E4k S)
        → (reg < 9) ⊎ (13 < reg)
        → Holds cells e
        → Holds cells (reg_write b reg val e).1
    unfolding reg_write
    reg_write-Holds reg val e out h = record {
      at_addr = h.at_addr;
      same = λ j lo hi.
          rw h.at_addr
            (ground (arith, chip.store_law reg val j e.rtl_dev lo hi, h.same j lo hi, out));
    }

    reg_read-Holds : (reg : ℕ) (e : E4k S) → Holds cells e → Holds cells (reg_read b reg e).1
    unfolding reg_read
    reg_read-Holds reg e h =
        let (rc, dev) = b.i2c_write_fn e.i2c_addr (reg ∷ []) e.rtl_dev in
        let sent : Holds cells (record e { rtl_dev = dev }) = record {
          at_addr = h.at_addr;
          same = λ j lo hi. rw h.at_addr (chip.select_law reg j e.rtl_dev lo hi ∙ h.same j lo hi);
        } in
        let got : Holds cells (record e { rtl_dev = (b.i2c_read_fn e.i2c_addr 1 dev).2 }) = record {
          at_addr = h.at_addr;
          same = λ j lo hi. rw h.at_addr (
              chip.keep_law j (b.i2c_write_fn addr (reg ∷ []) e.rtl_dev).1 lo hi
              ∙ chip.select_law reg j e.rtl_dev lo hi
              ∙ h.same j lo hi);
        } in
        if_ind (λ (r : ℤ × E4k S). Holds cells r.1) (below_one rc) _ _ (λ _. sent)
          (λ _.
            if_ind (λ (r : ℤ × E4k S). Holds cells r.1)
              (below_one (b.i2c_read_fn e.i2c_addr 1 dev).0) _ _ (λ _. got) (λ _. got))

    reg_set_mask-Holds :
        (reg mask val : ℕ) (e : E4k S)
        → (reg < 9) ⊎ (13 < reg)
        → Holds cells e
        → Holds cells (reg_set_mask b reg mask val e).1
    unfolding reg_set_mask masked_write ◌>>=◌
    reg_set_mask-Holds reg mask val e out h =
        let (rc, e1) = reg_read b reg e in
        let tmp = to_word 8 rc in
        if_ind (λ (m : Command S ℤ). Holds cells (m e1).1) (bit_and tmp mask == val) (pure (pos 0))
          (reg_write b reg (merge 8 tmp val mask)) (λ _. reg_read-Holds reg e h)
          (λ _. reg_write-Holds reg (merge 8 tmp val mask) e1 out (reg_read-Holds reg e h))

    keep_band-Holds :
        (band : Band) (rc : ℤ) (e : E4k S) → Holds cells e → Holds cells (keep_band b band rc e).1
    unfolding keep_band
    keep_band-Holds band rc e h =
        if_ind (Holds cells) (is_negative rc) e (record e { band = band }) (λ _. h)
          (λ _. record { at_addr = h.at_addr; same = h.same })

    band_set-Holds : (band : Band) (e : E4k S) → Holds cells e → Holds cells (band_set b band e).1
    unfolding band_set ◌>>=◌ ◌>>◌
    band_set-Holds band e h =
        let e1 = (reg_write b 0x78 (bias_for band) e).1 in
        let e2 = (reg_set_mask b 0x07 0x06 0 e1).1 in
        let bits = u8 (band_number band <<< 1) in
        let h1 = reg_write-Holds 0x78 (bias_for band) e (inr (omega arith)) h in
        let h2 = reg_set_mask-Holds 0x07 0x06 0 e1 (inl (omega arith)) h1 in
        keep_band-Holds band (reg_set_mask b 0x07 0x06 bits e2).0
          (reg_set_mask b 0x07 0x06 bits e2).1
          (reg_set_mask-Holds 0x07 0x06 bits e2 (inl (omega arith)) h2)

    band_and_filter-Holds : (e : E4k S) → Holds cells e → Holds cells (band_and_filter b e).1
    unfolding band_and_filter rf_filter_set
    band_and_filter-Holds e h =
        let e1 = (band_set b (band_for e.vco.flo) e).1 in
        reg_set_mask-Holds 0x10 0xf (choose_rf_filter e1.band e1.vco.flo) e1 (inr (omega arith))
          (band_set-Holds (band_for e.vco.flo) e h)

  -- The synthesizer's registers hold the field of the divider, `z`, and the two bytes of `x`.
  abbrev pub Programmed : PllParams → E4k S → Type 0
  Programmed p e =
      (chip.cell_of e.rtl_dev 0x0d ≡ p.r_idx)
      × (chip.cell_of e.rtl_dev 0x09 ≡ p.z)
      × (chip.cell_of e.rtl_dev 0x0a + 256 * chip.cell_of e.rtl_dev 0x0b ≡ p.x)

  Holds-Programmed :
      (p : PllParams) (cells : ℕ → ℕ) (e : E4k S)
      → Holds cells e
      → cells 0x0d ≡ p.r_idx
      → cells 0x09 ≡ p.z
      → cells 0x0a + 256 * cells 0x0b ≡ p.x
      → Programmed p e
  Holds-Programmed p cells e h r z x = (
    h.same 0x0d (omega arith) (omega arith) ∙ r,
    h.same 0x09 (omega arith) (omega arith) ∙ z,
    omega (
      arith,
      h.same 0x0a (omega arith) (omega arith),
      h.same 0x0b (omega arith) (omega arith),
      x,
    ),
  )

  -- The cells after the four writes.
  written : PllParams → (ℕ → ℕ) → ℕ → ℕ
  written p old j =
      if j == 0x0b
      then p.x >>> 8
      else if j == 0x0a
      then bit_and p.x 0xff
      else if j == 0x09
      then p.z
      else if j == 0x0d
      then p.r_idx
      else old j

  tune_params-Holds :
      (p : PllParams) (e : E4k S)
      → e.i2c_addr ≡ addr
      → Holds (written p (chip.cell_of e.rtl_dev)) (tune_params b p e).1
  unfolding tune_params reg_write written ◌>>◌
  tune_params-Holds p e at =
      let d1 = (b.i2c_write_fn e.i2c_addr (0x0d ∷ p.r_idx ∷ []) e.rtl_dev).1 in
      let d2 = (b.i2c_write_fn e.i2c_addr (0x09 ∷ p.z ∷ []) d1).1 in
      let d3 = (b.i2c_write_fn e.i2c_addr (0x0a ∷ bit_and p.x 0xff ∷ []) d2).1 in
      let d4 = (b.i2c_write_fn e.i2c_addr (0x0b ∷ (p.x >>> 8) ∷ []) d3).1 in
      band_and_filter-Holds (written p (chip.cell_of e.rtl_dev))
        (record e { rtl_dev = d4; vco = p })
        (record { at_addr = at; same = λ j lo hi. stored j lo hi })
    where
      law :
          (reg val j : ℕ) (d : S)
          → 9 ≤ j
          → j ≤ 13
          → chip.cell_of (b.i2c_write_fn e.i2c_addr (reg ∷ val ∷ []) d).1 j
            ≡ (if j == reg then val else chip.cell_of d j)
      law reg val j d lo hi = rw at (chip.store_law reg val j d lo hi)

      stored :
          (j : ℕ)
          → 9 ≤ j
          → j ≤ 13
          → (let d1 = (b.i2c_write_fn e.i2c_addr (0x0d ∷ p.r_idx ∷ []) e.rtl_dev).1 in
              let d2 = (b.i2c_write_fn e.i2c_addr (0x09 ∷ p.z ∷ []) d1).1 in
              let d3 = (b.i2c_write_fn e.i2c_addr (0x0a ∷ bit_and p.x 0xff ∷ []) d2).1 in
              let d4 = (b.i2c_write_fn e.i2c_addr (0x0b ∷ (p.x >>> 8) ∷ []) d3).1 in
              chip.cell_of d4 j ≡ written p (chip.cell_of e.rtl_dev) j)
      stored j lo hi =
          let d1 = (b.i2c_write_fn e.i2c_addr (0x0d ∷ p.r_idx ∷ []) e.rtl_dev).1 in
          let d2 = (b.i2c_write_fn e.i2c_addr (0x09 ∷ p.z ∷ []) d1).1 in
          let d3 = (b.i2c_write_fn e.i2c_addr (0x0a ∷ bit_and p.x 0xff ∷ []) d2).1 in
          rw
            (
              law 0x0b (p.x >>> 8) j d3 lo hi,
              law 0x0a (bit_and p.x 0xff) j d2 lo hi,
              law 0x09 p.z j d1 lo hi,
              law 0x0d p.r_idx j e.rtl_dev lo hi,
            )
            refl

  -- After the parameters and the read behind them the synthesizer's registers hold them.
  pub tuned-Programmed :
      (p : PllParams) (e : E4k S)
      → e.i2c_addr ≡ addr
      → Programmed p (reg_read b 0x07 (tune_params b p e).1).1
  unfolding written
  tuned-Programmed p e at =
      Holds-Programmed p (written p (chip.cell_of e.rtl_dev)) _
        (reg_read-Holds (written p (chip.cell_of e.rtl_dev)) 0x07 (tune_params b p e).1
          (tune_params-Holds p e at))
        refl refl (omega (arith, bit_and_low 8 p.x))
