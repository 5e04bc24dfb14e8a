-- ===== src/R82xx/Pll/Wrap.antt =====
-- Where the range check of the PLL computation lets an unreachable frequency pass.
use rtlsdrwrapper.Base.{ℕ, ◌-◌, ◌/◌, ◌<◌, ◌≤◌, ◌≡◌, arith, List, u8, u32, ltb, inr, some, false}
use rtlsdrwrapper.R82xx.State.{Config, R82xxChip, ok}
use rtlsdrwrapper.R82xx.Pll.{
  divider, freq_khz, vco_ratio, vco_power_ref, pll_bytes, pll_program, tuned,
}
use rtlsdrwrapper.R82xx.Pll.Divider.{divider_not_found}

-- The integer part is 4096 to 4159, of which eight bits keep 0 to 63.
wrapped :
    (freq : ℕ)
    → 1843200000 ≤ freq
    → freq < 1871999000
    → u8 (u32 (vco_ratio 28800000 freq 128 / 65536)) < 64
unfolding vco_ratio
wrapped freq lo hi = omega arith

passes : (c : R82xxChip) (n : ℕ) → n < 64 → ltb (128 / vco_power_ref c - 1) n ≡ false
passes c n h = ground arith

-- With a crystal of 28.8 MHz and a frequency from 1843.2 MHz up to 1871.999 MHz no divider puts the
-- VCO between its limits (the search ends with 128), and yet the computation succeeds: the integer
-- part of the ratio is checked after it has been cut off to eight bits.
pub pll_program_unreachable :
    (cfg : Config) (freq fine_tune : ℕ) (regs : List ℕ)
    → cfg.xtal ≡ 28800000
    → 1843200000 ≤ freq
    → freq < 1871999000
    → (divider (freq_khz freq) ≡ some (128, 0))
      × (pll_program cfg freq fine_tune regs
          ≡ ok (
              pll_bytes
                (vco_ratio 28800000 freq 128)
                (tuned (vco_power_ref cfg.rafael_chip) fine_tune 0)
                regs))
unfolding pll_program
pll_program_unreachable cfg freq fine_tune regs x lo hi =
    let e : divider (freq_khz freq) ≡ some (128, 0) =
      divider_not_found (freq_khz freq) (inr (omega arith)) (omega arith) in
    (e, rw (e, pll_program, x, passes cfg.rafael_chip _ (wrapped freq lo hi)))
