-- ===== src/E4k/Pll/Accuracy.antt =====
-- How far the computed frequency of the E4000's PLL is from the one asked for.
use rtlsdrwrapper.Base.{ℕ, ◌+◌, ◌-◌, ◌*◌, ◌/◌, ◌%◌, ◌^◌, ◌≤◌, ◌<◌, ◌≡◌, refl, arith}
use rtlsdrwrapper.Base.{some, u8, u16, u32, ◌==◌, if_ind, true, not, bit_and, leb, [], ◌∷◌, get_or}
use native.Mathlib.Nat.{div-add-mod, mod-lt, div-lt_iff_lt-mul, div-le_of_le-mul}
use rtlsdrwrapper.E4k.State.{PllParams}
use rtlsdrwrapper.E4k.Pll.{
  find_setting, setting_for, is_fosc_valid, compute_fvco, compute_flo, compute_pll_params,
}

-- A divider of the table: at least 2, and 48 below the first frequency.
abbrev IsSetting : ℕ → ℕ → Type 0
IsSetting freq mult = (2 ≤ mult) × (mult ≤ 48) × (10 ≤ freq → 459 ≤ freq * mult)

setting_for-IsSetting : (freq : ℕ) → IsSetting freq (setting_for freq).mult
unfolding setting_for find_setting
setting_for-IsSetting freq = ground arith

-- The fraction `x / 65536` of `fosc` with 16 bits falls short of `rem` by at most 458 Hz.
fraction_short :
    (fosc rem : ℕ)
    → rem < fosc
    → fosc ≤ 30000000
    → (rem * 65536 / fosc < 65536)
      × (fosc * (rem * 65536 / fosc) / 65536 ≤ rem)
      × (rem ≤ fosc * (rem * 65536 / fosc) / 65536 + 458)
fraction_short fosc rem lt small = (
  (div-lt_iff_lt-mul pos_fosc).1 (omega arith),
  omega (arith, div-add-mod (rem * 65536) fosc),
  omega (arith, div-add-mod (rem * 65536) fosc, mod-lt (rem * 65536) pos_fosc),
)
  where
    pos_fosc : 0 < fosc
    pos_fosc = omega arith

-- The remainder the code takes is that of the division.
remainder_lem : (fvco fosc : ℕ) → fvco - fosc * (fvco / fosc) ≡ fvco % fosc
remainder_lem fvco fosc = omega (arith, div-add-mod fvco fosc)

-- The computed VCO frequency is below the one asked for, by at most 458 Hz, and `x` has 16 bits.
vco_short :
    (fosc fvco : ℕ)
    → 0 < fosc
    → fosc ≤ 30000000
    → (let x = (fvco - fosc * (fvco / fosc)) * 65536 / fosc in
        (x < 65536)
        × (compute_fvco fosc (fvco / fosc) x ≤ fvco)
        × (fvco ≤ compute_fvco fosc (fvco / fosc) x + 458))
unfolding compute_fvco
vco_short fosc fvco pos_fosc small = rw (remainder_lem fvco fosc) (
    omega (
      arith,
      div-add-mod fvco fosc,
      fraction_short fosc (fvco % fosc) (mod-lt fvco pos_fosc) small,
    ))

-- Dividing by the output divider loses less than 1 Hz, and neither the cast nor the error branch
-- happens.
flo_short :
    (fosc z x r freq : ℕ)
    → 2 ≤ r
    → freq < 2 ^ 32
    → 459 ≤ freq * r
    → compute_fvco fosc z x ≤ freq * r
    → freq * r ≤ compute_fvco fosc z x + 458
    → (compute_flo fosc z x r ≤ freq) × (r * freq < r * compute_flo fosc z x r + r + 458)
unfolding compute_flo
flo_short fosc z x r freq two fits positive le short =
    if_ind Close (compute_fvco fosc z x == 0) (2 ^ 32 - 22) (u32 (compute_fvco fosc z x / r))
      (λ e. absurd (ground arith))
      (λ _. rw (no_wrap) (below, omega (arith, div-add-mod fvco r, mod-lt fvco pos_r)))
  where
    Close : ℕ → Type 0
    Close flo = (flo ≤ freq) × (r * freq < r * flo + r + 458)

    fvco : ℕ
    fvco = compute_fvco fosc z x

    pos_r : 0 < r
    pos_r = omega arith

    below : fvco / r ≤ freq
    below = div-le_of_le-mul r (omega arith)

    no_wrap : u32 (fvco / r) ≡ fvco / r
    no_wrap = omega (arith, below)

-- The computed frequency is the quotient itself.
flo_exact :
    (fosc z x r freq : ℕ)
    → 2 ≤ r
    → freq < 2 ^ 32
    → 459 ≤ freq * r
    → compute_fvco fosc z x ≤ freq * r
    → freq * r ≤ compute_fvco fosc z x + 458
    → compute_flo fosc z x r ≡ (fosc * z + fosc * x / 65536) / r
unfolding compute_flo compute_fvco
flo_exact fosc z x r freq two fits positive le short =
    let below : (fosc * z + fosc * x / 65536) / r ≤ freq = div-le_of_le-mul r (omega arith) in
    ground (arith, below)

-- The output divider that the field of register 7 stands for: 4, 6 and 8 with two phases, and from
-- the field 9 on, whose bit 3 selects three phases, 8 to 48.
abbrev pub divider_of : ℕ → ℕ
divider_of field =
    get_or (2 ∷ 4 ∷ 6 ∷ 8 ∷ 0 ∷ 0 ∷ 0 ∷ 0 ∷ 0 ∷ 8 ∷ 12 ∷ 16 ∷ 24 ∷ 32 ∷ 40 ∷ 48 ∷ []) field 0

setting-divider : (freq : ℕ) → (setting_for freq).mult ≡ divider_of (setting_for freq).reg_synth7
unfolding setting_for find_setting
setting-divider freq = ground arith

setting-threephase :
    (freq : ℕ)
    → not (bit_and (setting_for freq).reg_synth7 0x08 == 0) ≡ leb 8 (setting_for freq).reg_synth7
unfolding setting_for find_setting
setting-threephase freq = ground arith

-- The parameters for the clock `fosc` are those of `freq`: the frequency they name is that of a PLL
-- with the factor `z + x / 65536` and the divider of the field `r_idx`, and is near `freq`.
abbrev pub IsAccurate : ℕ → PllParams → ℕ → Type 0
IsAccurate fosc p freq =
    ((p.fosc ≡ fosc) × (p.intended_flo ≡ freq))
    × ((p.r ≡ divider_of p.r_idx) × (p.threephase ≡ leb 8 p.r_idx) × (2 ≤ p.r))
    × (p.flo ≡ (fosc * p.z + fosc * p.x / 65536) / p.r)
    × ((p.flo ≤ freq) × (p.r * freq < p.r * p.flo + p.r + 458))
    × ((p.z < 256) × (p.x < 65536))

-- For a clock from 16 to 30 MHz and a frequency of 32 bits from 10 Hz whose VCO frequency is below
-- 256 times the clock, parameters are found. Their field `r_idx` and flag of three phases stand for the
-- output divider `r`, which is at least 2; their frequency is that of the clock times
-- `z + x / 65536` over `r`, where `z` has 8 bits and `x` 16; and it is not above the one asked for, by
-- less than 1 Hz and 458 Hz over `r`.
pub compute_pll_params-IsAccurate :
    (fosc freq : ℕ)
    → 16000000 ≤ fosc
    → fosc ≤ 30000000
    → 10 ≤ freq
    → freq < 2 ^ 32
    → freq * (setting_for freq).mult < 256 * fosc
    → (p : PllParams) × (compute_pll_params fosc freq ≡ some p) × IsAccurate fosc p freq
unfolding compute_pll_params
compute_pll_params-IsAccurate fosc freq lo hi low fits in_range = (
  found,
  reached,
  (
    (refl, refl),
    (setting-divider freq, setting-threephase freq, two),
    exact,
    (near.0, near.1),
    (z_fits, x_fits),
  ),
)
  where
    mult : ℕ
    mult = (setting_for freq).mult

    fvco : ℕ
    fvco = freq * mult

    z : ℕ
    z = fvco / fosc

    x : ℕ
    x = (fvco - fosc * z) * 65536 / fosc

    short : (x < 65536) × (compute_fvco fosc z x ≤ fvco) × (fvco ≤ compute_fvco fosc z x + 458)
    short = vco_short fosc fvco (omega arith) hi

    x_fits : x < 65536
    x_fits = short.0

    z_fits : z < 256
    z_fits = (div-lt_iff_lt-mul (omega arith)).1 in_range

    near :
        (compute_flo fosc z x mult ≤ freq)
        × (mult * freq < mult * compute_flo fosc z x mult + mult + 458)
    near =
        let (two, at_most, positive) = setting_for-IsSetting freq in
        flo_short fosc z x mult freq two fits (positive low) short.1 short.2

    two : 2 ≤ mult
    two = (setting_for-IsSetting freq).0

    exact : compute_flo fosc z x mult ≡ (fosc * z + fosc * x / 65536) / mult
    exact =
        flo_exact fosc z x mult freq two fits ((setting_for-IsSetting freq).2 low) short.1 short.2

    x_word : u16 (u32 x) ≡ x
    x_word = omega (arith, x_fits)

    z_byte : u8 z ≡ z
    z_byte = omega (arith, z_fits)

    valid : is_fosc_valid fosc ≡ true
    valid = ground arith

    found : PllParams
    found = record {
      fosc = fosc;
      intended_flo = freq;
      flo = compute_flo fosc z x mult;
      x = x;
      z = z;
      r = mult;
      r_idx = (setting_for freq).reg_synth7;
      threephase = not (bit_and (setting_for freq).reg_synth7 0x08 == 0);
    }

    reached : compute_pll_params fosc freq ≡ some found
    reached = rw (valid, x_word, z_byte) refl
