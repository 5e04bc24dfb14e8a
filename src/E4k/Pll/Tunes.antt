-- ===== src/E4k/Pll/Tunes.antt =====
-- What tuning the E4000 leaves behind: the stored parameters, and the lock bit that decides the result.
use rtlsdrwrapper.Base.{ℕ, ◌*◌, ◌%◌, ◌^◌, ◌≤◌, ◌<◌, ◌≡◌, refl, sym, ap, subst, arith, ◌⊎◌, inl, inr}
use rtlsdrwrapper.Base.{u8, ◌<<<◌, false, ◌==◌, if_ind, ==_iff, Bool-cases}
use native.Mathlib.Nat.{mul-le-mul_left}
use rtlsdrwrapper.Base.Bits.{bit_and_low}
use rtlsdrwrapper.Base.Int.{ℤ, pos, negsuc}
use rtlsdrwrapper.R82xx.State.{Bus}
use rtlsdrwrapper.Base.Int.{is_negative}
use rtlsdrwrapper.E4k.State.{E4k, PllParams, Band, band_number, ◌>>=◌, ◌>>◌}
use rtlsdrwrapper.E4k.Regs.{reg_write, reg_read, reg_set_mask}
use rtlsdrwrapper.E4k.Regs.Steady.{
  Steady, Steady-then, Steady-bind, reg_write-Steady, reg_read-Steady, reg_set_mask-Steady,
}
use rtlsdrwrapper.E4k.Filter.{rf_filter_set, choose_rf_filter}
use rtlsdrwrapper.E4k.Pll.{
  setting_for, band_for, bias_for, keep_band, band_set, band_and_filter, tune_params,
  tune_and_check, tune_found, tune_freq, lock_code,
}
use rtlsdrwrapper.Base.{◌∙◌}
use rtlsdrwrapper.E4k.Pll.Chip.{HasSynth, Programmed, tuned-Programmed}
use rtlsdrwrapper.E4k.Pll.Accuracy.{IsAccurate, compute_pll_params-IsAccurate}

nonzero :
    (fosc : ℕ) (p : PllParams) (freq : ℕ)
    → 240 ≤ freq
    → IsAccurate fosc p freq
    → (p.flo == 0) ≡ false
nonzero fosc p freq low good = elim (Bool-cases (p.flo == 0)) [
  | inl e ↦ absurd (too_far ((==_iff p.flo 0).0 e))
  | inr e ↦ e
]
  where
    too_far : p.flo ≡ 0 → ⊥
    too_far e = omega (arith, good, mul-le-mul_left p.r low, ap (λ (t : ℕ). p.r * t) e)

module _ {S : Type 0} (b : Bus S) where
  module _ {vco : PllParams} {addr : ℕ} where
    keep_band-Steady : (band : Band) (rc : ℤ) → Steady vco addr (keep_band b band rc)
    unfolding keep_band
    keep_band-Steady band rc = record {
      at = λ e h.
          if_ind (λ (e' : E4k S). (e'.vco ≡ vco) × (e'.i2c_addr ≡ addr)) (is_negative rc) e
            (record e { band = band }) (λ _. h) (λ _. h);
    }

    band_set-Steady : (band : Band) → Steady vco addr (band_set b band)
    unfolding band_set
    band_set-Steady band =
        Steady-then (reg_write b 0x78 (bias_for band)) _ (reg_write-Steady b 0x78 (bias_for band)) (
          Steady-then (reg_set_mask b 0x07 0x06 0) _ (reg_set_mask-Steady b 0x07 0x06 0) (
            Steady-bind (reg_set_mask b 0x07 0x06 (u8 (band_number band <<< 1))) (keep_band b band)
              (reg_set_mask-Steady b 0x07 0x06 (u8 (band_number band <<< 1)))
              (keep_band-Steady band)))

    band_and_filter-Steady : Steady vco addr (band_and_filter b)
    unfolding band_and_filter rf_filter_set
    band_and_filter-Steady = record {
      at = λ e h.
          let e1 = (band_set b (band_for e.vco.flo) e).1 in
          (reg_set_mask-Steady b 0x10 0xf (choose_rf_filter e1.band e1.vco.flo)).at e1
            ((band_set-Steady (band_for e.vco.flo)).at e h);
    }

  -- The parameters are stored, and the address stays.
  tune_params_lem :
      (p : PllParams) (e : E4k S)
      → (let e' = (tune_params b p e).1 in (e'.vco ≡ p) × (e'.i2c_addr ≡ e.i2c_addr))
  unfolding tune_params ◌>>◌ reg_write
  tune_params_lem p e = band_and_filter-Steady.at _ (refl, refl)

  -- The result is 0 where bit 0 of the register is set, and -1 where it is not.
  abbrev pub Locked : ℕ → ℤ → Type 0
  Locked byte rc = ((byte % 2 ≡ 1) × (rc ≡ pos 0)) ⊎ ((byte % 2 ≡ 0) × (rc ≡ negsuc 0))

  lock_code-Locked : (byte : ℕ) → byte < 256 → Locked byte (lock_code b (pos byte))
  lock_code-Locked byte small = ground (arith, bit_and_low 1 byte)

  -- Register 7 can be read at the address. What it holds is free, and may depend on all that was done.
  abbrev pub IsAnswered : ℕ → Type 0
  IsAnswered addr =
      (e' : E4k S)
      → e'.i2c_addr ≡ addr
      → (byte : ℕ) × (byte < 256) × ((reg_read b 0x07 e').0 ≡ pos byte)

  module _ (addr : ℕ) (chip : HasSynth b addr) where
    -- What a call leaves: accurate parameters, the chip programmed with them, and, with the byte that
    -- register 7 gives after that, a result that tells the lock bit.
    abbrev pub Tuned : ℕ → E4k S → ℤ × E4k S → Type 0
    Tuned freq e (rc, e') =
        IsAccurate e.vco.fosc e'.vco freq
        × Programmed b addr chip e'.vco e'
        × (byte : ℕ) × (reg_read b 0x07 (tune_params b e'.vco e).1 ≡ (pos byte, e'))
        × Locked byte rc

    params_Tuned :
        (p : PllParams) (freq : ℕ) (e : E4k S)
        → e.i2c_addr ≡ addr
        → IsAnswered addr
        → IsAccurate e.vco.fosc p freq
        → Tuned freq e (tune_and_check b p e)
    unfolding tune_and_check ◌>>=◌ ◌>>◌
    params_Tuned p freq e here answered good =
        let (byte, small, value) = answered e1 (at.1 ∙ here) in
        (
          subst (λ v. IsAccurate e.vco.fosc v freq) (sym stored) good,
          subst (λ v. Programmed b addr chip v e2) (sym stored)
              (tuned-Programmed b addr chip p e here),
          byte,
          subst (λ v. reg_read b 0x07 (tune_params b v e).1 ≡ (pos byte, e2)) (sym stored)
              (ap (λ rc. (rc, e2)) value),
          rw value (lock_code-Locked byte small),
        )
      where
        e1 : E4k S
        e1 = (tune_params b p e).1

        e2 : E4k S
        e2 = (reg_read b 0x07 e1).1

        at : (e1.vco ≡ p) × (e1.i2c_addr ≡ e.i2c_addr)
        at = tune_params_lem p e

        stored : e2.vco ≡ p
        stored = ((reg_read-Steady b 0x07).at e1 (at.0, refl)).0

    -- For a clock from 16 to 30 MHz, a frequency of 32 bits from 240 Hz whose VCO frequency is below 256
    -- times the clock, and a chip at the driver's address that takes every write to its synthesizer and
    -- whose register 7 can be read: tuning stores parameters that are accurate for the clock and the
    -- frequency, leaves them in the registers of the synthesizer, and returns 0 where the lock bit is set
    -- in the byte that register 7 gives after they were programmed, and -1 where it is not.
    pub tune_freq-Tuned :
        (freq : ℕ) (e : E4k S)
        → e.i2c_addr ≡ addr
        → IsAnswered addr
        → 16000000 ≤ e.vco.fosc
        → e.vco.fosc ≤ 30000000
        → 240 ≤ freq
        → freq < 2 ^ 32
        → freq * (setting_for freq).mult < 256 * e.vco.fosc
        → Tuned freq e (tune_freq b freq e)
    unfolding tune_freq tune_found
    tune_freq-Tuned freq e here answered lo hi low fits in_range =
        let (p, found, good) =
          compute_pll_params-IsAccurate e.vco.fosc freq lo hi (omega arith) fits in_range in
        subst (λ o. Tuned freq e (tune_found b o e)) (sym found)
          (rw (nonzero e.vco.fosc p freq low good) (params_Tuned p freq e here answered good))

  -- With the same clock and frequency, tuning returns 0 where every read of register 7 fails.
  pub tune_freq-blind :
      (freq : ℕ) (e : E4k S)
      → ((e' : E4k S) → (reg_read b 0x07 e').0 ≡ negsuc 0)
      → 16000000 ≤ e.vco.fosc
      → e.vco.fosc ≤ 30000000
      → 240 ≤ freq
      → freq < 2 ^ 32
      → freq * (setting_for freq).mult < 256 * e.vco.fosc
      → (tune_freq b freq e).0 ≡ pos 0
  unfolding tune_freq tune_found tune_and_check ◌>>=◌ ◌>>◌
  tune_freq-blind freq e blind lo hi low fits in_range =
      let (p, found, good) =
        compute_pll_params-IsAccurate e.vco.fosc freq lo hi (omega arith) fits in_range in
      subst (λ o. (tune_found b o e).0 ≡ pos 0) (sym found)
        (rw (nonzero e.vco.fosc p freq low good) (ap (lock_code b) (blind (tune_params b p e).1)))
