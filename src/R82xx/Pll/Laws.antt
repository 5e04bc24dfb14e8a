-- ===== src/R82xx/Pll/Laws.antt =====
-- What `r82xx_set_pll` programs, and that it keeps shadow and chip in agreement.
use rtlsdrwrapper.Base.{ℕ, zero, suc, ◌+◌, ◌-◌, ◌*◌, ◌/◌, ◌^◌, ◌<◌, ◌≤◌, ◌≡◌, ◌≢◌, ◌⊎◌, arith}
use rtlsdrwrapper.Base.{List, u8, u32, length, inl, inr, some, ltb, Bool-cases}
use rtlsdrwrapper.Base.{false, ap, ◌∙◌, bit_and, get_or, u8}
use rtlsdrwrapper.Base.Order.{mul_mono}
use rtlsdrwrapper.R82xx.State.{Bus, Config, ok, diverges, R82xxChip, chip_r828d}
use rtlsdrwrapper.R82xx.State.Keeps.{Keeps, Keeps-bind, Keeps-bind-lift, keeps_rules}
use rtlsdrwrapper.R82xx.Shadow.Coherent.{HasRegisters, IsCoherent, write-IsCoherent}
use rtlsdrwrapper.R82xx.Shadow.Rules.{coherent_rules, write_reg_mask-IsCoherent, read-IsCoherent}
use rtlsdrwrapper.R82xx.Pll.{
  divider, freq_khz, vco_ratio, vco_power_ref, pll_bytes, pll_program, tuned, wait_lock, set_pll,
}
use rtlsdrwrapper.R82xx.Pll.Field.{divider_number, tuned-divider_number, pll_bytes-divider}
use rtlsdrwrapper.R82xx.Pll.Divider.{Divides, divider_found, divider-ne-none}
use rtlsdrwrapper.R82xx.Pll.Ratio.{decode, decode-pll_bytes, vco_ratio_nearest}

-- The crystals in use: 28.8 MHz, and 16 MHz with an R828D, within the drift that is corrected.
abbrev pub IsReference : Config → Type 0
IsReference cfg =
    ((28000000 ≤ cfg.xtal) × (cfg.xtal ≤ 30000000))
    ⊎ ((cfg.rafael_chip ≡ chip_r828d) × (15500000 ≤ cfg.xtal) × (cfg.xtal ≤ 16500000))

-- The bytes make the VCO run at the multiple `m` of the frequency, to within half a step of the
-- ratio.
abbrev pub Tunes : Config → ℕ → ℕ → List ℕ → Type 0
Tunes cfg freq m bytes =
    (2 * cfg.xtal * decode bytes ≤ 65536 * (freq * m) + cfg.xtal)
    × (65536 * (freq * m) < 2 * cfg.xtal * decode bytes + cfg.xtal)

-- For the divider `2 * 2 ^ n`, between 1.77 and 3.54 GHz in kHz: the bytes hold its number in the top
-- bits of the first, and tune the VCO to that multiple of the frequency.
abbrev pub Divided : Config → ℕ → ℕ → ℕ → List ℕ → Type 0
Divided cfg freq fine_tune n bytes =
    ((n ≤ 5) × (1770000 ≤ freq_khz freq * (2 * 2 ^ n)) × (freq_khz freq * (2 * 2 ^ n) < 3540000))
    × (bit_and (get_or bytes 0 0) 0xe0
        ≡ 32 * divider_number (vco_power_ref cfg.rafael_chip) fine_tune n)
    × Tunes cfg freq (2 * 2 ^ n) bytes

-- A VCO frequency between its limits, in Hz with the error of the rounding to kHz.
vco_bounds :
    (freq m : ℕ)
    → freq < 1769999500
    → m ≤ 64
    → 1770000 ≤ freq_khz freq * m
    → freq_khz freq * m < 3540000
    → (1769968000 ≤ freq * m) × (freq * m < 3540032000)
vco_bounds freq m small le lo hi = omega (arith, above, below)
  where
    khz : freq_khz freq ≡ (freq + 500) / 1000
    khz = omega arith

    above : freq * m + 500 * m ≤ 1000 * (freq_khz freq * m) + 999 * m
    above = rw khz (grind (arith, mul_mono (freq + 500) m (1000 * ((freq + 500) / 1000) + 999) m))

    below : 1000 * (freq_khz freq * m) ≤ freq * m + 500 * m
    below = rw khz (grind (arith, mul_mono (1000 * ((freq + 500) / 1000)) m (freq + 500) m))

module _ (x q product : ℕ) (near : 2 * x * q ≤ 65536 * product + x)
    (far : 65536 * product < 2 * x * q + x) (lo : 1769968000 ≤ product)
    (hi : product < 3540032000) where
  ratio_from : x ≤ 30000000 → 13 * 65536 ≤ q
  ratio_from h = elim (Bool-cases (ltb q (13 * 65536))) [
    | inl e ↦ absurd (omega (arith, mul_mono x q 30000000 (13 * 65536) h (ground arith)))
    | inr e ↦ ground arith
  ]

  ratio_below :
      (base limit : ℕ)
      → base ≤ x
      → x ≤ 30000000
      → 65536 * 3540032000 + 30000000 ≤ 2 * (base * limit)
      → q < limit
  ratio_below base limit h k big = elim (Bool-cases (ltb q limit)) [
    | inl e ↦ ground arith
    | inr e ↦ absurd (omega (arith, mul_mono base limit x q h (ground arith)))
  ]

-- The integer part of the ratio passes the check of the code, and fits eight bits.
fits_chip :
    (cfg : Config) (q product : ℕ)
    → IsReference cfg
    → 2 * cfg.xtal * q ≤ 65536 * product + cfg.xtal
    → 65536 * product < 2 * cfg.xtal * q + cfg.xtal
    → 1769968000 ≤ product
    → product < 3540032000
    → (13 * 65536 ≤ q) × (q < 128 / vco_power_ref cfg.rafael_chip * 65536)
fits_chip cfg q product (inl ref) near far lo hi = (
  ratio_from cfg.xtal q product near far lo hi ref.1,
  ground (
    arith,
    ratio_below cfg.xtal q product near far lo hi 28000000 (64 * 65536) ref.0 ref.1 (omega arith),
  ),
)
fits_chip cfg q product (inr ref) near far lo hi = (
  ratio_from cfg.xtal q product near far lo hi (omega arith),
  rw ref.0 (
      ratio_below cfg.xtal q product near far lo hi 15500000 (128 * 65536) ref.1 (omega arith)
        (omega arith)),
)

limit_le : (c : R82xxChip) → 128 / vco_power_ref c ≤ 128
limit_le c = omega arith

positive : (cfg : Config) → IsReference cfg → (0 < cfg.xtal) × (cfg.xtal < 2 ^ 31)
positive cfg (inl ref) = omega arith
positive cfg (inr ref) = omega arith

divider_le : (n : ℕ) → n ≤ 5 → 2 * 2 ^ n ≤ 64
divider_le zero h = omega arith
divider_le (suc zero) h = omega arith
divider_le (suc (suc zero)) h = omega arith
divider_le (suc (suc (suc zero))) h = omega arith
divider_le (suc (suc (suc (suc zero)))) h = omega arith
divider_le (suc (suc (suc (suc (suc zero))))) h = omega arith
divider_le (suc (suc (suc (suc (suc (suc n)))))) h = absurd (omega arith)

program_at :
    (cfg : Config) (freq fine_tune : ℕ) (regs : List ℕ) (m n : ℕ)
    → divider (freq_khz freq) ≡ some (m, n)
    → vco_ratio cfg.xtal freq m < 128 / vco_power_ref cfg.rafael_chip * 65536
    → pll_program cfg freq fine_tune regs
      ≡ ok (
          pll_bytes
            (vco_ratio cfg.xtal freq m)
            (tuned (vco_power_ref cfg.rafael_chip) fine_tune n)
            regs)
unfolding pll_program
program_at cfg freq fine_tune regs m n e h =
    let q = vco_ratio cfg.xtal freq m in
    let passes : ltb (128 / vco_power_ref cfg.rafael_chip - 1) (u8 (u32 (q / 65536))) ≡ false =
      ground (arith, limit_le cfg.rafael_chip) in
    rw (e, pll_program, passes)

-- For a frequency from 27.6565 MHz to below 1769.9995 MHz and a crystal in use, the computation ends
-- with bytes for a divider `2 * 2 ^ n` from 2 to 64 that brings the frequency between 1.77 and 3.54 GHz:
-- they tune the VCO to the frequency times the divider, and the top three bits of the first byte hold
-- `n`, or, modulo 8, `n + 1` where the fine tune value read back is below the reference of the chip and
-- `n - 1` where it is above.
pub pll_program-Tunes :
    (cfg : Config) (freq fine_tune : ℕ) (regs : List ℕ)
    → IsReference cfg
    → 27656500 ≤ freq
    → freq < 1769999500
    → (bytes : List ℕ) × (n : ℕ) × (pll_program cfg freq fine_tune regs ≡ ok bytes)
      × Divided cfg freq fine_tune n bytes
pll_program-Tunes cfg freq fine_tune regs ref lo hi =
    with_divider (divider_found (freq_khz freq) (omega arith) (omega arith))
  where
    with_divider :
        Divides (freq_khz freq)
        → (bytes : List ℕ) × (n : ℕ) × (pll_program cfg freq fine_tune regs ≡ ok bytes)
          × Divided cfg freq fine_tune n bytes
    with_divider (n, le, found, vco_lo, vco_hi) =
        let q = vco_ratio cfg.xtal freq (2 * 2 ^ n) in
        let near =
          vco_ratio_nearest cfg.xtal freq (2 * 2 ^ n) (positive cfg ref).0 (positive cfg ref).1
            (omega arith) (omega (arith, divider_le n le)) in
        let vco = vco_bounds freq (2 * 2 ^ n) hi (divider_le n le) vco_lo vco_hi in
        let fits = fits_chip cfg q (freq * (2 * 2 ^ n)) ref near.0 near.1 vco.0 vco.1 in
        let same =
          decode-pll_bytes q (tuned (vco_power_ref cfg.rafael_chip) fine_tune n) regs fits.0
            (omega (arith, fits.1, limit_le cfg.rafael_chip)) in
        let power_ref = vco_power_ref cfg.rafael_chip in
        (
          _,
          n,
          program_at cfg freq fine_tune regs (2 * 2 ^ n) n found fits.1,
          (
            (le, vco_lo, vco_hi),
            pll_bytes-divider q (tuned power_ref fine_tune n) regs
                ∙ ap (λ t. 32 * t) (tuned-divider_number power_ref fine_tune n le).0,
            rw same near,
          ),
        )

pub pll_program-ne-diverges :
    (cfg : Config) (freq fine_tune : ℕ) (regs : List ℕ)
    → pll_program cfg freq fine_tune regs ≢ diverges
unfolding pll_program
pll_program-ne-diverges cfg freq fine_tune regs =
    ground (arith, divider-ne-none (freq_khz freq) (omega arith))

length-pll_program :
    (cfg : Config) (freq fine_tune : ℕ) (regs bytes : List ℕ)
    → pll_program cfg freq fine_tune regs ≡ ok bytes
    → length bytes ≡ 7
unfolding pll_program pll_bytes
length-pll_program cfg freq fine_tune regs bytes h = ground arith

module _ {S : Type 0} (b : Bus S) (addr : ℕ) (chip : HasRegisters b addr) where
  wait_lock-IsCoherent : Keeps (IsCoherent b addr chip) (wait_lock b)
  unfolding wait_lock
  wait_lock-IsCoherent = search coherent_rules depth 12

  -- `r82xx_set_pll` returns for every frequency, and if it succeeds shadow and chip agree.
  pub set_pll-IsCoherent : (freq : ℕ) → Keeps (IsCoherent b addr chip) (set_pll b freq)
  unfolding set_pll
  set_pll-IsCoherent freq =
      Keeps-bind _ _ (write_reg_mask-IsCoherent b addr chip 0x1a 0x00 0x0c) λ _.
        Keeps-bind _ _ (search keeps_rules) λ regs.
          Keeps-bind _ _ (read-IsCoherent b addr chip 0x00 5) λ bytes.
            Keeps-bind _ _ (search keeps_rules) λ cfg.
              Keeps-bind-lift _ _ (pll_program-ne-diverges cfg freq _ regs) (λ program made.
                Keeps-bind _ _
                  (write-IsCoherent b addr chip 0x10 program (omega arith)
                    (omega (arith, length-pll_program cfg freq _ regs program made)))
                  λ _. Keeps-bind _ _ (wait_lock-IsCoherent) (λ lock. search coherent_rules))
