-- ===== src/R82xx/Pll/Ratio.antt =====
-- The bytes that are programmed stand for the ratio, and the ratio for the frequency asked for.
use rtlsdrwrapper.Base.{ℕ, ◌+◌, ◌*◌, ◌/◌, ◌%◌, ◌^◌, ◌<◌, ◌≤◌, ◌≡◌, arith, List, get_or}
use rtlsdrwrapper.Base.{u8, u32}
use native.Mathlib.Nat.{mul-div-le, lt-mul-div-succ}
use rtlsdrwrapper.Base.Bits.{bit_and_low}
use rtlsdrwrapper.R82xx.Pll.{vco_ratio, ni_of, si_of, pll_bytes}

-- The ratio that registers 0x14 to 0x16 (the last three of the seven bytes) stand for.
abbrev pub decode : List ℕ → ℕ
decode bytes =
    65536 * (4 * (get_or bytes 4 0 % 64) + get_or bytes 4 0 / 64 + 13)
    + get_or bytes 5 0
    + 256 * get_or bytes 6 0

-- The fields of the integer part fit their bits and give the integer part back.
pub ni-si_of :
    (nint : ℕ)
    → 13 ≤ nint
    → nint ≤ 255
    → (ni_of nint < 64) × (si_of nint < 4) × (4 * ni_of nint + si_of nint + 13 ≡ nint)
unfolding ni_of si_of
ni-si_of nint lo hi = ground arith

-- Every ratio with an integer part from 13 to 255 is read back exactly from the bytes programmed.
pub decode-pll_bytes :
    (vco_div div_num : ℕ) (regs : List ℕ)
    → 13 * 65536 ≤ vco_div
    → vco_div < 256 * 65536
    → decode (pll_bytes vco_div div_num regs) ≡ vco_div
unfolding pll_bytes
decode-pll_bytes vco_div div_num regs lo hi =
    rw (int_part, sdm_part)
      (omega (
        arith,
        ni-si_of (vco_div / 65536) (omega arith) (omega arith),
        bit_and_low 8 (vco_div % 65536),
      ))
  where
    int_part : u8 (u32 (vco_div / 65536)) ≡ vco_div / 65536
    int_part = omega arith

    sdm_part : u32 (vco_div % 65536) ≡ vco_div % 65536
    sdm_part = omega arith

-- For a reference below 2^31 Hz, a frequency of 32 bits and a divider up to 128 the ratio is the
-- nearest multiple of 1 / 65536 to the quotient of the VCO frequency by twice the reference.
pub vco_ratio_nearest :
    (pll_ref freq mix_div : ℕ)
    → 0 < pll_ref
    → pll_ref < 2 ^ 31
    → freq < 2 ^ 32
    → mix_div ≤ 128
    → (2 * pll_ref * vco_ratio pll_ref freq mix_div ≤ 65536 * (freq * mix_div) + pll_ref)
      × (65536 * (freq * mix_div) < 2 * pll_ref * vco_ratio pll_ref freq mix_div + pll_ref)
unfolding vco_ratio
vco_ratio_nearest pll_ref freq mix_div pos small fits m =
    rw (no_wrap, ref_fits)
      (omega (
        arith,
        mul-div-le total (2 * pll_ref),
        lt-mul-div-succ total {b = 2 * pll_ref} (omega arith),
      ))
  where
    total : ℕ
    total = pll_ref + 65536 * (freq * mix_div)

    product_small : freq * mix_div ≤ 2 ^ 32 * 128
    product_small = grind arith

    no_wrap : total % 2 ^ 64 ≡ total
    no_wrap = omega (arith, product_small)

    ref_fits : u32 (2 * pll_ref) ≡ 2 * pll_ref
    ref_fits = omega arith
