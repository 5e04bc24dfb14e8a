-- ===== src/R82xx/Bandwidth/Fit.antt =====
-- The filter that is chosen covers the bandwidth and is not much wider.
use rtlsdrwrapper.Base.{ℕ, ◌+◌, ◌-◌, ◌/◌, ◌%◌, ◌≤◌, ◌<◌, ◌≡◌, refl, arith, get_or, max}
use rtlsdrwrapper.Base.{true, false, ltb, ◌==◌, if◌then◌else◌, Bool-cases, inl, inr, bit_or, ◌<<<◌}
use rtlsdrwrapper.Base.Int.{pos, ◌-ℤ◌, ltb_ℤ}
use rtlsdrwrapper.Base.Bits.{bit_or_fields}
use rtlsdrwrapper.R82xx.Bandwidth.{
  Filter, narrow_filter, first_below, if_low_pass_bw_table, filter_for,
}

-- The entry in use for what is left of the bandwidth: wide enough, and less than 300 kHz wider,
-- except that the narrowest is 350 kHz wide.
abbrev IsFit : ℕ → ℕ → Type 0
IsFit n width = (n ≤ width) × (width ≤ max 350000 (n + 299999))

-- The row that is taken.
abbrev row : ℕ → ℕ
row n = first_below if_low_pass_bw_table (pos n) - 1

index_le : (n : ℕ) → n ≤ 1700000 → row n ≤ 9
unfolding first_below
index_le n h = ground arith

table_fits :
    (n : ℕ)
    → n ≤ 1700000
    → IsFit n (get_or if_low_pass_bw_table (first_below if_low_pass_bw_table (pos n) - 1) 0)
unfolding first_below
table_fits n h = ground arith

-- The width that register 0x0b stands for: its low four bits count the rows of the low pass from the
-- end, and a clear bit 5 or 6 adds a high pass.
abbrev pub width_of : ℕ → ℕ
width_of reg_0b =
    get_or if_low_pass_bw_table (15 - reg_0b % 16) 0
    + (if reg_0b / 32 % 2 == 0 then 380000 else 0)
    + (if reg_0b / 64 % 2 == 0 then 350000 else 0)

-- What is promised of a filter: the register byte stands for a width that fits, and the upper edge lies
-- in the IF range.
abbrev pub Covers : ℕ → Filter → Type 0
Covers n f =
    (f.reg_0a ≡ 0)
    × (f.reg_0b / 128 ≡ 1)
    × (width_of f.reg_0b ≡ f.real_bw)
    × IsFit n f.real_bw
    × (2300000 ≤ f.int_freq + f.real_bw / 2)
    × (f.int_freq + f.real_bw / 2 ≤ 3030000)

-- The byte for row `i` of the table under the bits `high` stands for that row and the two high passes.
byte_lem :
    (high i : ℕ)
    → i ≤ 9
    → (let byte = bit_or (high <<< 4) (15 - i) in
        (byte / 16 ≡ high)
        × (15 - byte % 16 ≡ i)
        × (byte / 32 % 2 ≡ high / 2 % 2)
        × (byte / 64 % 2 ≡ high / 4 % 2)
        × (byte / 128 ≡ high / 8))
byte_lem high i h = omega (arith, bit_or_fields 4 high (15 - i) (omega arith))

-- A filter whose byte is made so covers the bandwidth if its width and frequency do.
width_lem :
    (high i : ℕ)
    → i ≤ 9
    → width_of (bit_or (high <<< 4) (15 - i))
      ≡ get_or if_low_pass_bw_table i 0
        + (if high / 2 % 2 == 0 then 380000 else 0)
        + (if high / 4 % 2 == 0 then 350000 else 0)
width_lem high i h = let (_, row, two, one, _) = byte_lem high i h in rw (row, two, one) refl

minus : (n m : ℕ) → m ≤ n → pos n -ℤ pos m ≡ pos (n - m)
unfolding ◌-ℤ◌
minus n m h = ground arith

narrow_both : (n : ℕ) → 2080000 < n → n ≤ 2430000 → Covers n (narrow_filter (pos n))
unfolding narrow_filter
narrow_both n lo hi =
    let t1 : ltb_ℤ (pos 2050000) (pos n) ≡ true = ground arith in
    let t2 : ltb_ℤ (pos 1700000) (pos (n - 380000)) ≡ true = ground arith in
    rw (t1, minus n 380000 (omega arith), t2, minus (n - 380000) 350000 (omega arith))
      (omega (
        arith,
        table_fits (n - 380000 - 350000) (omega arith),
        width_lem 8 (row (n - 380000 - 350000)) (index_le (n - 380000 - 350000) (omega arith)),
        byte_lem 8 (row (n - 380000 - 350000)) (index_le (n - 380000 - 350000) (omega arith)),
      ))

narrow_wide2 : (n : ℕ) → 2050000 < n → n ≤ 2080000 → Covers n (narrow_filter (pos n))
unfolding narrow_filter
narrow_wide2 n lo hi =
    let t1 : ltb_ℤ (pos 2050000) (pos n) ≡ true = ground arith in
    let t2 : ltb_ℤ (pos 1700000) (pos (n - 380000)) ≡ false = ground arith in
    rw (t1, minus n 380000 (omega arith), t2)
      (omega (
        arith,
        table_fits (n - 380000) (omega arith),
        width_lem 12 (row (n - 380000)) (index_le (n - 380000) (omega arith)),
        byte_lem 12 (row (n - 380000)) (index_le (n - 380000) (omega arith)),
      ))

narrow_wide1 : (n : ℕ) → 1700000 < n → n ≤ 2050000 → Covers n (narrow_filter (pos n))
unfolding narrow_filter
narrow_wide1 n lo hi =
    let t1 : ltb_ℤ (pos 2050000) (pos n) ≡ false = ground arith in
    let t2 : ltb_ℤ (pos 1700000) (pos n) ≡ true = ground arith in
    rw (t1, t2, minus n 350000 (omega arith))
      (omega (
        arith,
        table_fits (n - 350000) (omega arith),
        width_lem 10 (row (n - 350000)) (index_le (n - 350000) (omega arith)),
        byte_lem 10 (row (n - 350000)) (index_le (n - 350000) (omega arith)),
      ))

narrow_low : (n : ℕ) → n ≤ 1700000 → Covers n (narrow_filter (pos n))
unfolding narrow_filter
narrow_low n hi =
    let t1 : ltb_ℤ (pos 2050000) (pos n) ≡ false = ground arith in
    let t2 : ltb_ℤ (pos 1700000) (pos n) ≡ false = ground arith in
    rw (t1, t2)
      (omega (
        arith,
        table_fits n hi,
        width_lem 14 (row n) (index_le n hi),
        byte_lem 14 (row n) (index_le n hi),
      ))

narrow-Covers : (n : ℕ) → n ≤ 2430000 → Covers n (narrow_filter (pos n))
narrow-Covers n h = elim (Bool-cases (ltb 2080000 n)) [
  | inl e ↦ narrow_both n (ground arith) h
  | inr e ↦ elim (Bool-cases (ltb 2050000 n)) [
    | inl e' ↦ narrow_wide2 n (ground arith) (ground arith)
    | inr e' ↦ elim (Bool-cases (ltb 1700000 n)) [
      | inl e'' ↦ narrow_wide1 n (ground arith) (ground arith)
      | inr e'' ↦ narrow_low n (ground arith)
    ]
  ]
]

-- For a bandwidth of up to 2.43 MHz the filter is at least that wide, and less than 300 kHz wider or
-- the narrowest of 350 kHz; the intermediate frequency plus half the width lies between 2.3 and 3.03 MHz.
pub filter_for-fit : (n : ℕ) → n ≤ 2430000 → Covers n (filter_for (pos n))
unfolding filter_for
filter_for-fit n h =
    let t1 : ltb_ℤ (pos 7000000) (pos n) ≡ false = ground arith in
    let t2 : ltb_ℤ (pos 6000000) (pos n) ≡ false = ground arith in
    let t3 : ltb_ℤ (pos 2430000) (pos n) ≡ false = ground arith in
    rw (t1, t2, t3) (narrow-Covers n h)
