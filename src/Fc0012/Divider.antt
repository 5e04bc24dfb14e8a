-- ===== src/Fc0012/Divider.antt =====
-- The VCO frequency that the registers of the FC0012 stand for, with its usual clock of 28.8 MHz.
use rtlsdrwrapper.Base.{
  ℕ, ◌+◌, ◌-◌, ◌*◌, ◌/◌, ◌%◌, ◌≤◌, ◌<◌, ◌≡◌, refl, ◌∙◌, subst, sym, arith, bit_and,
}
use rtlsdrwrapper.Base.{List, some, false, leb, if◌then◌else◌, get_or, u32, ◌>>>◌}
use rtlsdrwrapper.Base.Bits.{bit_and_low}
use rtlsdrwrapper.Base.{bit_or, ◌==◌, ◌⊎◌, inl, inr, ap}
use rtlsdrwrapper.Fc0012.{
  vco_select, bandwidth_bits, multi_for, f_vco, xdiv_of, am_pm, reg_1_2, is_invalid, xin_of,
  divider_bytes, register_bytes, pll_registers,
}

vco_range :
    (freq : ℕ)
    → 22000000 ≤ freq
    → freq ≤ 946000000
    → (2100000000 ≤ freq * (multi_for freq).0) × (freq * (multi_for freq).0 ≤ 3784000000)
vco_range freq lo hi = ground arith

xdiv_rounded :
    (vco : ℕ)
    → vco ≤ 3794399999
    → xdiv_of 14400000 vco
      ≡ (if leb 7200000 (vco % 14400000) then vco / 14400000 + 1 else vco / 14400000)
xdiv_rounded vco hi = ground arith

-- Registers 1 and 2 stand for the divider.
reg_1_2_lem :
    (xdiv : ℕ)
    → 132 ≤ xdiv
    → xdiv ≤ 263
    → (let (r1, r2) = reg_1_2 (am_pm xdiv) in (r1 + 8 * r2 ≡ xdiv) × (r1 ≤ 15) × (11 ≤ r2))
reg_1_2_lem xdiv lo hi = ground arith

-- The fraction in 15 bits, moved up by 32768 from one half on.
xin_lem :
    (vco : ℕ)
    → vco ≤ 3794399999
    → (let x = (vco % 14400000) / 1000 * 32768 / 14400 in
        xin_of 14400000 vco ≡ (if leb 7200000 (vco % 14400000) then x + 32768 else x))
xin_lem vco hi = ground arith

-- The VCO frequency in 1 / 32768 Hz that registers 1 to 4 stand for: the divider in 1 and 2, the fraction
-- of 16 bits with its sign in 3 and 4.
abbrev pub decode : List ℕ → ℕ
decode regs =
    let divider = get_or regs 0 0 + 8 * get_or regs 1 0 in
    let fraction = 256 * get_or regs 2 0 + get_or regs 3 0 in
    14400000 * (32768 * divider + fraction - (if leb 32768 fraction then 65536 else 0))

-- The frequency is a bit low: less than 1440 Hz.
abbrev pub IsNear : ℕ → ℕ → Type 0
IsNear decoded vco = (decoded ≤ 32768 * vco) × (32768 * vco < decoded + 47168000)

fraction-IsNear :
    (vco : ℕ)
    → vco ≤ 3794399999
    → (let r = vco % 14400000 in
        let q = vco / 14400000 in
        let x = r / 1000 * 32768 / 14400 in
        let d = if leb 7200000 r then q + 1 else q in
        let f = if leb 7200000 r then x + 32768 else x in
        IsNear (14400000 * (32768 * d + f - (if leb 32768 f then 65536 else 0))) vco)
fraction-IsNear vco hi = ground arith

xdiv_range :
    (vco : ℕ)
    → 1900000000 ≤ vco
    → vco ≤ 3794399999
    → (132 ≤ xdiv_of 14400000 vco) × (xdiv_of 14400000 vco ≤ 263)
xdiv_range vco lo hi = ground (arith, xdiv_rounded vco hi)

pub no_carry : (vco : ℕ) → vco ≤ 3794399999 → u32 vco ≡ vco
no_carry vco hi = omega arith

is_valid : (r1 r2 : ℕ) → r1 ≤ 15 → 11 ≤ r2 → is_invalid (r1, r2) ≡ false
is_valid r1 r2 a b = ground arith

two_bytes : (xin : ℕ) → 256 * (xin >>> 8) + bit_and xin 0xff ≡ xin
two_bytes xin = omega (arith, bit_and_low 8 xin)

-- The same by divider and fraction.
abbrev NearAt : ℕ → ℕ → Type 0
NearAt divider vco =
    let r = vco % 14400000 in
    let x = r / 1000 * 32768 / 14400 in
    let f = if leb 7200000 r then x + 32768 else x in
    IsNear (14400000 * (32768 * divider + f - (if leb 32768 f then 65536 else 0))) vco

-- The registers for `v` are valid and stand for a frequency near `vco`.
abbrev pub Decodes : ℕ × ℕ × ℕ → ℕ → ℕ → ℕ → Type 0
Decodes row bandwidth v vco =
    (is_invalid (reg_1_2 (am_pm (xdiv_of 14400000 v))) ≡ false)
    × IsNear (decode (divider_bytes row 14400000 v bandwidth)) vco

pub divider_bytes-Decodes :
    (row : ℕ × ℕ × ℕ) (bandwidth vco : ℕ)
    → 1900000000 ≤ vco
    → vco ≤ 3794399999
    → Decodes row bandwidth vco vco
divider_bytes-Decodes (multi, reg5, reg6) bandwidth vco lo hi =
    let (low, high) = xdiv_range vco lo hi in
    let (divider, small, big) = reg_1_2_lem (xdiv_of 14400000 vco) low high in
    let (r1, r2) = reg_1_2 (am_pm (xdiv_of 14400000 vco)) in
    (
      is_valid r1 r2 small big,
      subst
          (λ f.
            IsNear (14400000 * (32768 * (r1 + 8 * r2) + f - (if leb 32768 f then 65536 else 0)))
              vco)
          (sym (two_bytes (xin_of 14400000 vco) ∙ xin_lem vco hi))
          (subst (λ d. NearAt d vco) (sym (divider ∙ xdiv_rounded vco hi))
            (fraction-IsNear vco hi)),
    )

-- The divider that register 5, above its low three bits, and bit 1 of register 6 stand for.
abbrev divider_with : ℕ → ℕ → ℕ
divider_with reg5 bit =
    let upper = reg5 / 8 * 8 in
    let second = bit == 1 in
    if upper == 0x80
    then (if second then 64 else 96)
    else if upper == 0x40
    then (if second then 32 else 48)
    else if upper == 0x20
    then (if second then 16 else 24)
    else if upper == 0x10
    then (if second then 8 else 12)
    else if upper == 0x08
    then (if second then 4 else 6)
    else 0

-- The same from both registers.
abbrev pub divider_of : ℕ → ℕ → ℕ
divider_of reg5 reg6 = divider_with reg5 (reg6 / 2 % 2)

-- Bit 3 of register 6 selects the upper VCO range, bit 5 is set, and the top bits are the bandwidth's.
abbrev pub IsRegister6 : ℕ → ℕ → ℕ → Type 0
IsRegister6 bandwidth byte vco =
    (byte / 8 % 2 ≡ (if leb 3060000000 vco then 1 else 0))
    × (byte / 32 % 2 ≡ 1)
    × (byte / 64 ≡ (if bandwidth == 6000000 then 2 else if bandwidth == 7000000 then 1 else 0))

-- The registers stand for the frequency: times the divider it lies between the limits, and the VCO runs
-- near that; the low bits of register 5 are set, bit 3 of register 6 selects the upper VCO range from
-- 3.06 GHz on, bit 5 is set, and its top bits are those of the bandwidth.
abbrev pub StandsFor : ℕ × ℕ → ℕ → ℕ → ℕ → List ℕ → Type 0
StandsFor (low, high) freq bandwidth divider regs =
    ((low ≤ freq * divider) × (freq * divider ≤ high))
    × IsNear (decode regs) (freq * divider)
    × (get_or regs 4 0 % 8 ≡ 7)
    × IsRegister6 bandwidth (get_or regs 5 0) (freq * divider)

row_divider :
    (freq : ℕ)
    → freq ≤ 946000000
    → (let (multi, reg5, reg6) = multi_for freq in
        (divider_of (bit_or reg5 0x07) reg6 ≡ multi)
        × (bit_or reg5 0x07 % 8 ≡ 7)
        × ((reg6 ≡ 0) ⊎ (reg6 ≡ 2)))
row_divider freq h = ground arith

-- The bits of register 6.
pub register_6 :
    (reg6 vco bandwidth : ℕ)
    → (reg6 ≡ 0) ⊎ (reg6 ≡ 2)
    → (let fast = if vco_select vco then bit_or reg6 0x08 else reg6 in
        let byte = bit_or (bit_and (bit_or fast 0x20) 0x3f) (bandwidth_bits bandwidth) in
        (byte / 2 % 2 ≡ reg6 / 2 % 2) × IsRegister6 bandwidth byte vco)
register_6 reg6 vco bandwidth (inl h) = rw h (ground arith)
register_6 reg6 vco bandwidth (inr h) = rw h (ground arith)

-- With a clock of 28.8 MHz, registers are found for every frequency from 22 to 946 MHz. Registers 5 and
-- 6 stand for a divider by which the frequency comes between 2.1 and 3.784 GHz; the VCO frequency that
-- registers 1 to 4 stand for is not above that product, by less than 1440 Hz; and register 6 selects
-- the VCO range and the bandwidth.
pub pll_registers-IsNear :
    (freq bandwidth : ℕ)
    → 22000000 ≤ freq
    → freq ≤ 946000000
    → (regs : List ℕ) × (pll_registers 14400000 freq bandwidth ≡ some regs)
      × StandsFor
          (2100000000, 3784000000)
          freq
          bandwidth
          (divider_of (get_or regs 4 0) (get_or regs 5 0))
          regs
unfolding pll_registers
pll_registers-IsNear freq bandwidth lo hi =
    let (low, high) = vco_range freq lo hi in
    let vco = freq * (multi_for freq).0 in
    let (row, set, reg6) = row_divider freq hi in
    let six = register_6 (multi_for freq).2 (f_vco freq) bandwidth reg6 in
    let (valid, near) =
      subst (λ v. Decodes (multi_for freq) bandwidth v vco) (sym (no_carry vco (omega arith)))
        (divider_bytes-Decodes (multi_for freq) bandwidth vco (omega arith) (omega arith)) in
    let regs = register_bytes 14400000 freq (f_vco freq) bandwidth in
    let divider : divider_of (get_or regs 4 0) (get_or regs 5 0) ≡ (multi_for freq).0 =
      ap (λ bit. divider_with (bit_or (multi_for freq).1 0x07) bit) six.0 ∙ row in
    (
      regs,
      rw valid refl,
      subst (λ m. StandsFor (2100000000, 3784000000) freq bandwidth m regs) (sym divider)
          (
            (low, high),
            near,
            set,
            subst (IsRegister6 bandwidth (get_or regs 5 0)) (no_carry vco (omega arith)) six.1,
          ),
    )
