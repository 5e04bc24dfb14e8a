-- ===== src/R82xx/Pll/Divider.antt =====
-- The divider search ends, and finds the power of two that puts the VCO into its range.
use rtlsdrwrapper.Base.{ℕ, ◌*◌, ◌<◌, ◌≤◌, ◌^◌, ◌≡◌, ◌≢◌, ◌⊎◌, arith, some, none}
use rtlsdrwrapper.Base.{Bool-cases, ltb, leb, inl, inr, ◌&&◌}
use rtlsdrwrapper.R82xx.Pll.{divider, vco_min, vco_max}

-- The VCO runs in its range behind a division by `m`.
abbrev pub InRange : ℕ → ℕ → Type 0
InRange khz m = (vco_min ≤ khz * m) × (khz * m < vco_max)

divider_2 : (khz : ℕ) → InRange khz 2 → divider khz ≡ some (2, 0)
unfolding divider
divider_2 khz h = ground arith

divider_4 : (khz : ℕ) → InRange khz 4 → divider khz ≡ some (4, 1)
unfolding divider
divider_4 khz h = ground arith

divider_8 : (khz : ℕ) → InRange khz 8 → divider khz ≡ some (8, 2)
unfolding divider
divider_8 khz h = ground arith

divider_16 : (khz : ℕ) → InRange khz 16 → divider khz ≡ some (16, 3)
unfolding divider
divider_16 khz h = ground arith

divider_32 : (khz : ℕ) → InRange khz 32 → divider khz ≡ some (32, 4)
unfolding divider
divider_32 khz h = ground arith

divider_64 : (khz : ℕ) → InRange khz 64 → divider khz ≡ some (64, 5)
unfolding divider
divider_64 khz h = ground arith

-- What the search promises for a frequency that some divider reaches.
abbrev pub Divides : ℕ → Type 0
Divides khz =
    (n : ℕ) × (n ≤ 5)
    × (divider khz ≡ some (2 * 2 ^ n, n))
    × (vco_min ≤ khz * (2 * 2 ^ n))
    × (khz * (2 * 2 ^ n) < vco_max)

-- For every frequency from 27657 kHz to below 1770 MHz the search ends with the exponent `n` of the
-- divider `2 * 2 ^ n` that puts the VCO between its limits.
pub divider_found : (khz : ℕ) → 27657 ≤ khz → khz < 1770000 → Divides khz
divider_found khz lo hi = elim (Bool-cases (ltb khz 885000)) [
  | inr e0 ↦ (0, omega arith, divider_2 khz (ground arith), ground arith, ground arith)
  | inl e0 ↦ elim (Bool-cases (ltb khz 442500)) [
    | inr e1 ↦ (1, omega arith, divider_4 khz (ground arith), ground arith, ground arith)
    | inl e1 ↦ elim (Bool-cases (ltb khz 221250)) [
      | inr e2 ↦ (2, omega arith, divider_8 khz (ground arith), ground arith, ground arith)
      | inl e2 ↦ elim (Bool-cases (ltb khz 110625)) [
        | inr e3 ↦ (3, omega arith, divider_16 khz (ground arith), ground arith, ground arith)
        | inl e3 ↦ elim (Bool-cases (ltb khz 55313)) [
          | inr e4 ↦ (4, omega arith, divider_32 khz (ground arith), ground arith, ground arith)
          | inl e4 ↦ (5, omega arith, divider_64 khz (ground arith), ground arith, ground arith)
        ]
      ]
    ]
  ]
]

-- Outside that range the search ends too, with the divider 128 and no exponent.
pub divider_not_found :
    (khz : ℕ) → (khz < 27657) ⊎ (1770000 ≤ khz) → khz ≤ 4294967 → divider khz ≡ some (128, 0)
unfolding divider
divider_not_found khz out small = ground arith

pub divider-ne-none : (khz : ℕ) → khz ≤ 4294967 → divider khz ≢ none
divider-ne-none khz small = elim (Bool-cases (leb 27657 khz && ltb khz 1770000)) [
  | inl e ↦ let d = divider_found khz (ground arith) (ground arith) in rw d.2 (λ e'. cc)
  | inr e ↦ rw (divider_not_found khz (ground arith) small) (λ e'. cc)
]
