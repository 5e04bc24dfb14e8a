-- ===== src/Rtl/Rate/Exact.antt =====
-- With the crystal at its nominal frequency the resampler gives every supported rate to within 1 Hz.
use rtlsdrwrapper.Base.{
  ℕ, ◌+◌, ◌*◌, ◌/◌, ◌%◌, ◌^◌, ◌<◌, ◌≤◌, ◌≡◌, ◌∙◌, arith, true, ◌⊎◌, inl, inr, Bool-cases, leb,
}
use rtlsdrwrapper.Base.{bit_and, u32, ◌<<<◌, subst, sym}
use native.Mathlib.Nat.{mul-div-le, lt-mul-div-succ, le-div_iff_mul-le, div-lt_iff_lt-mul}
use rtlsdrwrapper.Base.Bits.{bit_and_digit, bit_and_low, bit_and-pow, bit_or_fields_below}
use rtlsdrwrapper.Base.Order.{mul_mono}
use rtlsdrwrapper.Rtl.Rate.{is_supported, rsamp_ratio, real_rsamp_ratio, real_rate}

-- `28800000 * 2^22`
abbrev total : ℕ
total = 120795955200000

masked : (q : ℕ) → bit_and q 0x0ffffffc ≡ 4 * (q / 4 % 2 ^ 26)
masked q = omega (
  arith,
  bit_and_digit q 0x0ffffffc,
  bit_and_digit (q / 2) 0x07fffffe,
  bit_and_low 26 (q / 2 / 2),
)

real_of : (r : ℕ) → r < 2 ^ 28 → real_rsamp_ratio r ≡ r + (r / 2 ^ 27) % 2 * 2 ^ 28
unfolding real_rsamp_ratio
real_of r h =
    let high : u32 (bit_and r 0x08000000 <<< 1) ≡ ((r / 2 ^ 27) % 2) <<< 28 =
      omega (arith, bit_and-pow 27 r) in
    rw high (bit_or_fields_below 28 ((r / 2 ^ 27) % 2) r h ∙ omega arith)

-- The ratio, a multiple of four, that the resampler works with.
multiple : ℕ → ℕ
multiple q = 4 * (q / 4)

real_high : (q : ℕ) → q < 2 ^ 27 → real_rsamp_ratio (bit_and (u32 q) 0x0ffffffc) ≡ multiple q
unfolding multiple
real_high q h = rw (masked (u32 q)) (real_of (4 * (u32 q / 4 % 2 ^ 26)) (omega arith) ∙ omega arith)

real_low :
    (q : ℕ)
    → 3 * 2 ^ 27 ≤ q
    → q < 2 ^ 29
    → real_rsamp_ratio (bit_and (u32 q) 0x0ffffffc) ≡ multiple q
unfolding multiple
real_low q lo hi =
    rw (masked (u32 q)) (real_of (4 * (u32 q / 4 % 2 ^ 26)) (omega arith) ∙ omega arith)

supported :
    (s : ℕ) → is_supported s ≡ true → ((225001 ≤ s) × (s ≤ 300000)) ⊎ ((900001 ≤ s) × (s ≤ 3200000))
supported s h = ground arith

least_quotient : (s q : ℕ) → s ≤ 3200000 → total < s * (q + 1) → 37748736 ≤ q + 1
least_quotient s q h k = elim (Bool-cases (leb 37748736 (q + 1))) [
  | inl e ↦ ground arith
  | inr e ↦ absurd (omega (arith, mul_mono s (q + 1) 3200000 37748735 h (ground arith)))
]

-- Division of the total by the multiple of four gives the rate back.
back : (s r : ℕ) → 0 < s → s ≤ 3200000 → r ≡ multiple (total / s) → u32 (total / r) ≡ s
unfolding multiple
back s r pos le e =
    let below = mul-div-le total s in
    let above = lt-mul-div-succ total {b = s} pos in
    let big = least_quotient s (total / s) le above in
    let r_pos : 0 < r = omega arith in
    let low : s * r ≤ total =
      omega (arith, mul_mono s r s (total / s) (omega arith) (omega arith)) in
    let fours : s * (total / s + 1) ≤ s * (r + 4) =
      mul_mono s (total / s + 1) s (r + 4) (omega arith) (omega arith) in
    let high : total < (s + 1) * r = omega (arith, fours) in
    let q_le : s ≤ total / r = (le-div_iff_mul-le {k = r} {x = s} {y = total} r_pos).1 low in
    let q_lt : total / r < s + 1 =
      (div-lt_iff_lt-mul {k = r} {x = total} {y = s + 1} r_pos).1 high in
    omega arith

quotient_below : (s limit : ℕ) → 0 < s → total < limit * s → total / s < limit
quotient_below s limit pos h = (div-lt_iff_lt-mul {k = s} {x = total} {y = limit} pos).1 h

quotient_above : (s limit : ℕ) → 0 < s → limit * s ≤ total → limit ≤ total / s
quotient_above s limit pos h = (le-div_iff_mul-le {k = s} {x = limit} {y = total} pos).1 h

real_of_supported :
    (s : ℕ)
    → is_supported s ≡ true
    → real_rsamp_ratio (rsamp_ratio 28800000 s) ≡ multiple (total / s)
unfolding rsamp_ratio
real_of_supported s h = elim (supported s h) [
  | inl low ↦
      real_low (total / s) (quotient_above s (3 * 2 ^ 27) (omega arith) (omega arith))
        (quotient_below s (2 ^ 29) (omega arith) (omega arith))
  | inr high ↦ real_high (total / s) (quotient_below s (2 ^ 27) (omega arith) (omega arith))
]

supported_bounds : (s : ℕ) → is_supported s ≡ true → (0 < s) × (s ≤ 3200000)
supported_bounds s h = ground arith

-- The rate of the resampler, `total / ratio` as a fraction, is not below `s` hertz, by less than one
-- hertz and by less than 4 in `ratio` parts.
abbrev pub IsClose : ℕ → ℕ → Type 0
IsClose s ratio = (s * ratio ≤ total) × (total < (s + 1) * ratio) × (total < s * (ratio + 4))

multiple-IsClose : (s : ℕ) → 0 < s → s ≤ 3200000 → IsClose s (multiple (total / s))
unfolding multiple
multiple-IsClose s pos le =
    let below = mul-div-le total s in
    let above = lt-mul-div-succ total {b = s} pos in
    let big = least_quotient s (total / s) le above in
    let r = 4 * (total / s / 4) in
    let low : s * r ≤ total =
      omega (arith, mul_mono s r s (total / s) (omega arith) (omega arith)) in
    let fours : s * (total / s + 1) ≤ s * (r + 4) =
      mul_mono s (total / s + 1) s (r + 4) (omega arith) (omega arith) in
    (low, omega (arith, fours), omega (arith, fours))

-- With the crystal at 28.8 MHz and for every rate that is not refused, the rate that the resampler's
-- ratio stands for is not below the requested rate, by less than 1 Hz and by less than 4 in as many
-- parts as the ratio; so its integer part, which the driver stores, is the requested rate.
pub real_rate-IsClose :
    (s : ℕ)
    → is_supported s ≡ true
    → (real_rate 28800000 s ≡ s) × IsClose s (real_rsamp_ratio (rsamp_ratio 28800000 s))
unfolding real_rate
real_rate-IsClose s h =
    let (pos, le) = supported_bounds s h in
    let ratio = real_of_supported s h in
    (
      back s (real_rsamp_ratio (rsamp_ratio 28800000 s)) pos le ratio,
      subst (IsClose s) (sym ratio) (multiple-IsClose s pos le),
    )
