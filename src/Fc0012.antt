-- ===== src/Fc0012.antt =====
-- The driver of the FC0012 tuner, Sources/CRTLSDR/src/tuner_fc0012.c. It keeps no state but the dongle.
pub mod Divider
mod Tests
use rtlsdrwrapper.Base.{
  ℕ, ◌+◌, ◌-◌, ◌*◌, ◌/◌, ◌%◌, ◌^◌, bit_and, bit_or, List, [], ◌∷◌, Option, none, some,
}
use rtlsdrwrapper.Base.{
  Bool, true, false, not, ◌||◌, ltb, leb, ◌==◌, if◌then◌else◌, get_or, u8, u16, u32, bit_clear,
  ◌<<<◌, ◌>>>◌,
}
use rtlsdrwrapper.Base.Int.{ℤ, pos, negsuc, ltb_ℤ, is_negative}
use rtlsdrwrapper.R82xx.State.{Bus}

-- A function that returns 0 (true) or -1.
abbrev pub Attempt : Type 0 → Type 0
Attempt S = S → Bool × S

module _ {S : Type 0} where
  -- `if (!ret) ret = n`
  infixl 10 ◌and_then◌
  unfoldable pub ◌and_then◌ : Attempt S → Attempt S → Attempt S
  ◌and_then◌ m n s = let (good, s1) = m s in if good then n s1 else (false, s1)

-- The frequency divider, and what stands for it in registers 5 and 6.
abbrev pub multi_for : ℕ → ℕ × ℕ × ℕ
multi_for freq =
    if ltb freq 37084000
    then (96, 0x82, 0x00)
    else if ltb freq 55625000
    then (64, 0x82, 0x02)
    else if ltb freq 74167000
    then (48, 0x42, 0x00)
    else if ltb freq 111250000
    then (32, 0x42, 0x02)
    else if ltb freq 148334000
    then (24, 0x22, 0x00)
    else if ltb freq 222500000
    then (16, 0x22, 0x02)
    else if ltb freq 296667000
    then (12, 0x12, 0x00)
    else if ltb freq 445000000
    then (8, 0x12, 0x02)
    else if ltb freq 593334000
    then (6, 0x0a, 0x00)
    else (4, 0x0a, 0x02)

-- A product of 32 bits.
abbrev pub f_vco : ℕ → ℕ
f_vco freq = u32 (freq * (multi_for freq).0)

abbrev pub vco_select : ℕ → Bool
vco_select vco = leb 3060000000 vco

-- `half` is `xtal_freq_div_2`. The product has 32 bits, the difference 64.
abbrev pub xdiv_of : ℕ → ℕ → ℕ
xdiv_of half vco =
    let q = u16 (vco / half) in
    if leb (half / 2) ((vco + 2 ^ 64 - u32 (q * half)) % 2 ^ 64) then u16 (q + 1) else q

-- `am` and `pm` after the adjustment.
abbrev pub am_pm : ℕ → ℕ × ℕ
am_pm xdiv =
    let pm = u8 (xdiv / 8) in
    let am = u8 (xdiv - 8 * pm) in if ltb am 2 then (am + 8, (pm + 255) % 256) else (am, pm)

-- Registers 1 and 2.
abbrev pub reg_1_2 : ℕ × ℕ → ℕ × ℕ
reg_1_2 (am, pm) = if ltb 31 pm then (u8 (am + 8 * (pm - 31)), 31) else (am, pm)

abbrev pub is_invalid : ℕ × ℕ → Bool
is_invalid (r1, r2) = ltb 15 r1 || ltb r2 0x0b

abbrev pub xin_of : ℕ → ℕ → ℕ
xin_of half vco =
    let khz = u16 ((vco - vco / half * half) / 1000) in
    let xin = u16 ((khz <<< 15) / (half / 1000)) in if leb 16384 xin then u16 (xin + 32768) else xin

abbrev pub bandwidth_bits : ℕ → ℕ
bandwidth_bits bandwidth =
    if bandwidth == 6000000 then 0x80 else if bandwidth == 7000000 then 0x40 else 0

-- Registers 1 to 6, from the divider and what stands for it.
abbrev pub divider_bytes : ℕ × ℕ × ℕ → ℕ → ℕ → ℕ → List ℕ
divider_bytes (multi, reg5, reg6) half vco bandwidth =
    let regs = reg_1_2 (am_pm (xdiv_of half vco)) in
    let xin = xin_of half vco in
    let fast = if vco_select vco then bit_or reg6 0x08 else reg6 in
    (regs.0
      ∷ regs.1
      ∷ (xin >>> 8)
      ∷ bit_and xin 0xff
      ∷ bit_or reg5 0x07
      ∷ bit_or (bit_and (bit_or fast 0x20) 0x3f) (bandwidth_bits bandwidth)
      ∷ [])

abbrev pub register_bytes : ℕ → ℕ → ℕ → ℕ → List ℕ
register_bytes half freq vco bandwidth = divider_bytes (multi_for freq) half vco bandwidth

-- The same, or nothing where no combination is valid.
pub pll_registers : ℕ → ℕ → ℕ → Option (List ℕ)
pll_registers half freq bandwidth =
    if is_invalid (reg_1_2 (am_pm (xdiv_of half (f_vco freq))))
    then none
    else some (register_bytes half freq (f_vco freq) bandwidth)

-- Registers 1 to 21.
abbrev pub init_regs : List ℕ
init_regs =
    0x05
    ∷ 0x10
    ∷ 0x00
    ∷ 0x00
    ∷ 0x0f
    ∷ 0x00
    ∷ bit_or 0x00 0x20
    ∷ 0xff
    ∷ 0x6e
    ∷ 0xb8
    ∷ 0x82
    ∷ bit_or 0xfc 0x02
    ∷ 0x02
    ∷ 0x00
    ∷ 0x00
    ∷ 0x00
    ∷ 0x00
    ∷ 0x1f
    ∷ 0x00
    ∷ 0x00
    ∷ 0x04
    ∷ []

abbrev pub gain_bits : ℤ → ℕ
gain_bits gain =
    if ltb_ℤ gain (negsuc 39)
    then 0x02
    else if ltb_ℤ gain (pos 71)
    then 0x00
    else if ltb_ℤ gain (pos 179)
    then 0x08
    else if ltb_ℤ gain (pos 192)
    then 0x17
    else 0x10

-- `rtlsdr_get_tuner_clock` is the number `clock`.
module _ {S : Type 0} (b : Bus S) where
  unfoldable pub writereg : ℕ → ℕ → Attempt S
  writereg reg val s =
      let (r, s1) = b.i2c_write_fn 0xc6 (reg ∷ val ∷ []) s in (not (is_negative r), s1)

  -- Nothing where the function returns -1.
  unfoldable pub readreg : ℕ → S → Option ℕ × S
  readreg reg s =
      let (r, s1) = b.i2c_write_fn 0xc6 (reg ∷ []) s in
      let (r', bytes, s2) = b.i2c_read_fn 0xc6 1 s1 in
      if is_negative r
      then (none, s1)
      else if is_negative r'
      then (none, s2)
      else (some (get_or bytes 0 reg), s2)

  -- One register after the other, up to the first that fails.
  unfoldable pub writeregs : ℕ → List ℕ → Attempt S
  unfolding writereg ◌and_then◌
  writeregs reg [] s = (true, s)
  writeregs reg (val ∷ vals) s = (writereg reg val and_then writeregs (reg + 1) vals) s

  unfoldable pub init : Attempt S
  unfolding writeregs
  init = writeregs 1 init_regs

  calibrate_again : ℕ → Attempt S
  unfolding writereg ◌and_then◌
  calibrate_again reg6 = writereg 0x06 reg6 and_then writereg 0x0e 0x80 and_then writereg 0x0e 0x00

  -- The choice of the other VCO range by the control voltage that was read.
  select_vco : Bool → ℕ → ℕ → Attempt S
  unfolding calibrate_again
  select_vco true tmp reg6 s =
      if ltb 0x3c tmp then calibrate_again (bit_clear 8 reg6 0x08) s else (true, s)
  select_vco false tmp reg6 s =
      if ltb tmp 0x02 then calibrate_again (bit_or reg6 0x08) s else (true, s)

  voltage_read : Bool → ℕ → Option ℕ × S → Bool × S
  unfolding select_vco
  voltage_read select reg6 (none, s) = (false, s)
  voltage_read select reg6 (some tmp, s) = select_vco select (bit_and tmp 0x3f) reg6 s

  unfoldable pub read_voltage : Bool → ℕ → Attempt S
  unfolding readreg voltage_read
  read_voltage select reg6 s = voltage_read select reg6 (readreg 0x0e s)

  program : Bool → List ℕ → Attempt S
  unfolding writeregs writereg read_voltage ◌and_then◌
  program select regs =
      writeregs 1 regs
      and_then writereg 0x0e 0x80
      and_then writereg 0x0e 0x00
      and_then writereg 0x0e 0x00
      and_then read_voltage select (get_or regs 5 0)

  program_found : Bool → Option (List ℕ) → Attempt S
  unfolding program
  program_found select none s = (false, s)
  program_found select (some regs) s = program select regs s

  unfoldable pub set_params : ℕ → ℕ → ℕ → Attempt S
  unfolding pll_registers program_found
  set_params clock freq bandwidth =
      program_found (vco_select (f_vco freq)) (pll_registers (clock / 2) freq bandwidth)

  -- A failed read leaves the 0 that `tmp` starts with.
  unfoldable pub set_gain : ℤ → Attempt S
  unfolding readreg writereg
  set_gain gain s =
      let (got, s1) = readreg 0x13 s in
      let tmp = elim got as (λ _. ℕ) [ none ↦ 0 | some v ↦ v ] in
      writereg 0x13 (bit_or (bit_and tmp 0xe0) (gain_bits gain)) s1
