-- ===== src/Fc0013/Laws.antt =====
-- The divider registers and the gain table of the FC0013.
use rtlsdrwrapper.Base.{
  ℕ, ◌*◌, ◌≤◌, ◌<◌, ◌≡◌, refl, ◌⊎◌, inl, inr, sym, subst, List, [], ◌∷◌, Option, none, some, arith,
}
use rtlsdrwrapper.Base.{
  Bool, false, if_ind, All, ap, ◌∙◌, ◌/◌, ◌%◌, bit_or, get_or, ◌==◌, if◌then◌else◌,
}
use rtlsdrwrapper.Base.Int.{ℤ, pos, ◌≤ℤ◌, leb_ℤ}
use rtlsdrwrapper.R82xx.State.{Bus}
use rtlsdrwrapper.Fc0012.{◌and_then◌, divider_bytes, xdiv_of}
use rtlsdrwrapper.Fc0012.Divider.{
  IsRegister6, StandsFor, register_6, Decodes, divider_bytes-Decodes, no_carry,
}
use rtlsdrwrapper.Fc0013.{
  multi_for, f_vco, pll_registers, set_params, set_vhf_track, set_filters, program, lna_row,
  lna_gains,
}

-- The divider 4 is used up to 950 MHz, but registers exist up to 948.6 MHz.
abbrev pub Reached : ℕ → Type 0
Reached freq = (freq < 948600000) ⊎ (950000000 ≤ freq)

vco_range :
    (freq : ℕ)
    → 22000000 ≤ freq
    → freq ≤ 1890000000
    → Reached freq
    → (1900000000 ≤ freq * (multi_for freq).0) × (freq * (multi_for freq).0 ≤ 3794399999)
vco_range freq lo hi (inl r) = ground arith
vco_range freq lo hi (inr r) = ground arith

-- The divider that register 5, above its low three bits, and bit 1 of register 6 stand for.
abbrev divider_with : ℕ → ℕ → ℕ
divider_with reg5 bit =
    let upper = reg5 / 8 * 8 in
    let second = bit == 1 in
    if upper == 0x80
    then (if second then 32 else 96)
    else if upper == 0x40
    then (if second then 16 else 48)
    else if upper == 0x20
    then (if second then 8 else 24)
    else if upper == 0x10
    then (if second then 4 else 12)
    else if upper == 0x08
    then (if second then 2 else 6)
    else if second
    then 64
    else 0

-- The same from both registers.
abbrev pub divider_of : ℕ → ℕ → ℕ
divider_of reg5 reg6 = divider_with reg5 (reg6 / 2 % 2)

row_divider :
    (freq : ℕ)
    → (let (multi, reg5, reg6) = multi_for freq in
        (divider_of (bit_or reg5 0x07) reg6 ≡ multi)
        × (bit_or reg5 0x07 % 8 ≡ 7)
        × ((reg6 ≡ 0) ⊎ (reg6 ≡ 2)))
row_divider freq = ground arith

-- With a clock of 28.8 MHz, registers are found for every frequency from 22 to 1890 MHz but those from
-- 948.6 MHz to below 950 MHz. Registers 5 and 6 stand for a divider by which the frequency comes between
-- 1.9 and 3.794399999 GHz; the VCO frequency that registers 1 to 4 stand for is not above that product,
-- by less than 1440 Hz; and register 6 selects the VCO range and the bandwidth.
pub fc0013_pll_registers-IsNear :
    (freq bandwidth : ℕ)
    → 22000000 ≤ freq
    → freq ≤ 1890000000
    → Reached freq
    → (regs : List ℕ) × (pll_registers 14400000 freq bandwidth ≡ some regs)
      × StandsFor
          (1900000000, 3794399999)
          freq
          bandwidth
          (divider_of (get_or regs 4 0) (get_or regs 5 0))
          regs
unfolding pll_registers
fc0013_pll_registers-IsNear freq bandwidth lo hi r =
    let (low, high) = vco_range freq lo hi r in
    let vco = freq * (multi_for freq).0 in
    let (row, set, reg6) = row_divider freq in
    let six = register_6 (multi_for freq).2 (f_vco freq) bandwidth reg6 in
    let (valid, near) =
      subst (λ v. Decodes (multi_for freq) bandwidth v vco) (sym (no_carry vco high))
        (divider_bytes-Decodes (multi_for freq) bandwidth vco low high) in
    let regs = divider_bytes (multi_for freq) 14400000 (f_vco freq) bandwidth in
    let divider : divider_of (get_or regs 4 0) (get_or regs 5 0) ≡ (multi_for freq).0 =
      ap (λ bit. divider_with (bit_or (multi_for freq).1 0x07) bit) six.0 ∙ row in
    (
      regs,
      rw valid refl,
      subst (λ m. StandsFor (1900000000, 3794399999) freq bandwidth m regs) (sym divider)
          (
            (low, high),
            near,
            set,
            subst (IsRegister6 bandwidth (get_or regs 5 0)) (no_carry vco high) six.1,
          ),
    )

gap_divider : (freq : ℕ) → 948600000 ≤ freq → freq < 950000000 → xdiv_of 14400000 (f_vco freq) ≡ 264
gap_divider freq lo hi = ground arith

pll_registers_gap :
    (freq bandwidth : ℕ)
    → 948600000 ≤ freq
    → freq < 950000000
    → pll_registers 14400000 freq bandwidth ≡ none
unfolding pll_registers
pll_registers_gap freq bandwidth lo hi = rw (gap_divider freq lo hi) refl

and_then-fails :
    {S : Type 0} (m n : S → Bool × S) (s : S)
    → ((t : S) → (n t).0 ≡ false)
    → ((m and_then n) s).0 ≡ false
unfolding ◌and_then◌
and_then-fails m n s h =
    if_ind (λ (r : Bool × _). r.0 ≡ false) (m s).0 (n (m s).1) (false, (m s).1) (λ e. h (m s).1)
      (λ e. refl)

program-none : {S : Type 0} (b : Bus S) (freq : ℕ) (s : S) → program b freq none s ≡ (false, s)
unfolding program
program-none b freq s = refl

program_gap :
    {S : Type 0} (b : Bus S) (freq bandwidth : ℕ) (s : S)
    → 948600000 ≤ freq
    → freq < 950000000
    → (program b freq (pll_registers 14400000 freq bandwidth) s).0 ≡ false
program_gap b freq bandwidth s lo hi =
    rw (pll_registers_gap freq bandwidth lo hi, program-none b freq s) refl

-- With a clock of 28.8 MHz, tuning to a frequency from 948.6 MHz to below 950 MHz returns -1, whatever
-- the chip answers.
pub set_params_gap :
    {S : Type 0} (b : Bus S) (freq bandwidth : ℕ) (s : S)
    → 948600000 ≤ freq
    → freq < 950000000
    → (set_params b 28800000 freq bandwidth s).0 ≡ false
unfolding set_params
set_params_gap b freq bandwidth s lo hi =
    and_then-fails (set_vhf_track b freq and_then set_filters b freq)
      (program b freq (pll_registers 14400000 freq bandwidth)) s
      (λ t. program_gap b freq bandwidth t lo hi)

-- The gains do not fall.
abbrev Sorted : List (ℤ × ℕ) → Type 0
Sorted [] = Unit
Sorted (row ∷ []) = Unit
Sorted (row ∷ next ∷ rows) = (row.0 ≤ℤ next.0) × Sorted (next ∷ rows)

-- The last row reaches the gain.
abbrev Reaches : ℤ → List (ℤ × ℕ) → Type 0
Reaches gain [] = ⊥
Reaches gain (row ∷ []) = gain ≤ℤ row.0
Reaches gain (row ∷ next ∷ rows) = Reaches gain (next ∷ rows)

Sorted-All :
    (row : ℤ × ℕ) (rows : List (ℤ × ℕ)) (low : ℤ)
    → Sorted (row ∷ rows)
    → low ≤ℤ row.0
    → All (λ (other : ℤ × ℕ). low ≤ℤ other.0) (row ∷ rows)
Sorted-All row [] low h l = (l, tt)
Sorted-All row (next ∷ rows) low h l = (l, Sorted-All next rows low h.1 (omega (arith, h.0, l)))

abbrev Member : ℤ × ℕ → List (ℤ × ℕ) → Type 0
Member row [] = ⊥
Member row (other ∷ rows) = (row ≡ other) ⊎ Member row rows

-- The row has the least gain of those that reach `gain`.
abbrev pub IsLeast : ℤ → List (ℤ × ℕ) → Option (ℤ × ℕ) → Type 0
IsLeast gain rows none = ⊥
IsLeast gain rows (some row) =
    Member row rows
    × (gain ≤ℤ row.0)
    × All (λ (other : ℤ × ℕ). gain ≤ℤ other.0 → row.0 ≤ℤ other.0) rows

abbrev AtLeast : ℤ → ℤ → ℤ × ℕ → Type 0
AtLeast gain low other = gain ≤ℤ other.0 → low ≤ℤ other.0

at_least :
    (gain low : ℤ) (rows : List (ℤ × ℕ))
    → All (λ (other : ℤ × ℕ). low ≤ℤ other.0) rows
    → All (AtLeast gain low) rows
at_least gain low [] h = tt
at_least gain low (row ∷ rows) h = ((λ _. h.0), at_least gain low rows h.1)

IsLeast-behind :
    (gain : ℤ) (row : ℤ × ℕ) (rows : List (ℤ × ℕ)) (o : Option (ℤ × ℕ))
    → leb_ℤ gain row.0 ≡ false
    → IsLeast gain rows o
    → IsLeast gain (row ∷ rows) o
IsLeast-behind gain row rows none e h = h
IsLeast-behind gain row rows (some found) e (m, l, a) =
    (inr m, l, ((λ k. absurd (ground arith)), a))

first-IsLeast :
    (gain : ℤ) (rows : List (ℤ × ℕ))
    → Sorted rows
    → Reaches gain rows
    → IsLeast gain rows (lna_row rows gain)
unfolding lna_row
first-IsLeast gain [] s r = r
first-IsLeast gain (row ∷ []) s r = (inl refl, r, ((λ h. omega arith), tt))
first-IsLeast gain (row ∷ next ∷ rows) s r =
    if_ind (IsLeast gain (row ∷ next ∷ rows)) (leb_ℤ gain row.0) _ _
      (λ e. (
        inl refl,
        ground arith,
        at_least gain row.0 (row ∷ next ∷ rows)
            (Sorted-All row (next ∷ rows) row.0 s (omega arith)),
      ))
      (λ e. IsLeast-behind gain row (next ∷ rows) _ e (first-IsLeast gain (next ∷ rows) s.1 r))

-- For a gain of up to 19.7 dB the search takes a row of the table, and of those whose gain reaches the one
-- asked for a row with the least.
pub lna_row-IsLeast : (gain : ℤ) → gain ≤ℤ pos 197 → IsLeast gain lna_gains (lna_row lna_gains gain)
lna_row-IsLeast gain h = first-IsLeast gain lna_gains (ground arith) h
