-- ===== src/R82xx/Pll/Field.antt =====
-- The divider field of the first byte that `r82xx_set_pll` writes.
use rtlsdrwrapper.Base.{
  ℕ, zero, suc, ◌+◌, ◌*◌, ◌%◌, ◌<◌, ◌≤◌, ◌≡◌, refl, ap, ◌∙◌, arith, List, ltb, if◌then◌else◌,
  get_or, u8, bit_and, ◌<<<◌,
}
use rtlsdrwrapper.Base.Bits.{merge_inside}
use rtlsdrwrapper.R82xx.Pll.{pll_bytes, tuned}

-- The divider number `n`, one more or less, modulo 8, where the fine tune value read back differs from
-- the reference of the chip.
abbrev pub divider_number : ℕ → ℕ → ℕ → ℕ
divider_number power_ref fine_tune n =
    if ltb fine_tune power_ref
    then (n + 1) % 8
    else if ltb power_ref fine_tune
    then (n + 7) % 8
    else n

-- The top three bits of a byte of a number below 8.
top_bits : (m : ℕ) → m < 8 → bit_and (u8 (m <<< 5)) 0xe0 ≡ 32 * m
top_bits zero h = refl
top_bits (suc zero) h = refl
top_bits (suc (suc zero)) h = refl
top_bits (suc (suc (suc zero))) h = refl
top_bits (suc (suc (suc (suc zero)))) h = refl
top_bits (suc (suc (suc (suc (suc zero))))) h = refl
top_bits (suc (suc (suc (suc (suc (suc zero)))))) h = refl
top_bits (suc (suc (suc (suc (suc (suc (suc zero))))))) h = refl
top_bits (suc (suc (suc (suc (suc (suc (suc (suc m)))))))) h = absurd (omega arith)

pub tuned-divider_number :
    (power_ref fine_tune n : ℕ)
    → n ≤ 5
    → (tuned power_ref fine_tune n % 8 ≡ divider_number power_ref fine_tune n)
      × (divider_number power_ref fine_tune n < 8)
unfolding tuned
tuned-divider_number power_ref fine_tune n h = ground arith

-- The first byte holds the divider number in its top bits.
pub pll_bytes-divider :
    (vco_div div_num : ℕ) (regs : List ℕ)
    → bit_and (get_or (pll_bytes vco_div div_num regs) 0 0) 0xe0 ≡ 32 * (div_num % 8)
unfolding pll_bytes
pll_bytes-divider vco_div div_num regs =
    merge_inside 8 _ (u8 (div_num <<< 5)) 0xe0 (omega arith)
    ∙ ap (λ v. bit_and v 0xe0) cut
    ∙ top_bits (div_num % 8) (omega arith)
  where
    cut : u8 (div_num <<< 5) ≡ u8 ((div_num % 8) <<< 5)
    cut = omega arith
