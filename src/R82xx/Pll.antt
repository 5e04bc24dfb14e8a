-- ===== src/R82xx/Pll.antt =====
-- `r82xx_set_pll` of tuner_r82xx.c: the divider, the fixed-point ratio, the register bytes, and the
-- wait for the lock. Products that the C code makes in 32 or 64 bits are cut off to these.
pub mod Divider
pub mod Ratio
pub mod Field
pub mod Laws
pub mod Wrap
use rtlsdrwrapper.Base.{ℕ, zero, suc, ◌+◌, ◌-◌, ◌*◌, ◌/◌, ◌%◌, ◌^◌, bit_and, bit_or, u8, u32}
use rtlsdrwrapper.Base.{sub_u8, ◌<<<◌, ◌>>>◌, Bool, true, false, not, ◌&&◌, ◌==◌, ltb, leb}
use rtlsdrwrapper.Base.{if◌then◌else◌, Option, none, some, List, [], ◌∷◌, take, drop, get_or}
use rtlsdrwrapper.Base.Bits.{merge}
use rtlsdrwrapper.R82xx.State.{Priv, Config, Bus, Result, ok, err, diverges, Driver, R82xxChip}
use rtlsdrwrapper.R82xx.State.{chip_r828d, ◌>>=◌, ◌>>◌, gets, modify, pure, lift}
use rtlsdrwrapper.R82xx.Shadow.{reg_shadow_start, write, write_reg_mask, read}

-- kHz
abbrev pub vco_min : ℕ
vco_min = 1770000

abbrev pub vco_max : ℕ
vco_max = u32 (vco_min * 2)

abbrev pub mask_reg8 : ℕ → ℕ → ℕ → ℕ
mask_reg8 reg val mask = merge 8 reg val mask

-- `(freq + 500) / 1000`, where the sum wraps.
abbrev pub freq_khz : ℕ → ℕ
freq_khz freq = u32 (freq + 500) / 1000

abbrev pub in_vco_range : ℕ → ℕ → Bool
in_vco_range khz mix_div = leb vco_min (u32 (khz * mix_div)) && ltb (u32 (khz * mix_div)) vco_max

-- `while (mix_div <= 64)` with fuel: the divider it stops at, and whether it left by `break`.
unfoldable pub mix_search : ℕ → ℕ → ℕ → Option (ℕ × Bool)
mix_search zero khz mix_div = none
mix_search (suc fuel) khz mix_div =
    let rest = mix_search fuel khz (u8 (mix_div <<< 1)) in
    if leb mix_div 64
    then (if in_vco_range khz mix_div then some (mix_div, true) else rest)
    else some (mix_div, false)

-- `while (div_buf > 2) { div_buf >>= 1; div_num++; }` with fuel.
unfoldable pub div_steps : ℕ → ℕ → ℕ → Option ℕ
div_steps zero div_buf div_num = none
div_steps (suc fuel) div_buf div_num =
    let rest = div_steps fuel (div_buf >>> 1) (u8 (div_num + 1)) in
    if ltb 2 div_buf then rest else some div_num

unfoldable pub with_steps : Option (ℕ × Bool) → Option (ℕ × ℕ)
with_steps none = none
with_steps (some (mix_div, false)) = some (mix_div, 0)
with_steps (some (mix_div, true)) = elim (div_steps 8 mix_div 0) [
  | none ↦ none
  | some n ↦ some (mix_div, n)
]

-- `mix_div` and `div_num` behind both loops.
unfoldable pub divider : ℕ → Option (ℕ × ℕ)
unfolding mix_search div_steps with_steps
divider khz = with_steps (mix_search 8 khz 2)

abbrev pub vco_power_ref : R82xxChip → ℕ
vco_power_ref chip_r828d = 1
vco_power_ref _ = 2

-- The correction of `div_num` by the VCO fine tune value that was read back.
unfoldable pub tuned : ℕ → ℕ → ℕ → ℕ
tuned power_ref fine_tune div_num =
    if ltb power_ref fine_tune
    then sub_u8 div_num 1
    else if ltb fine_tune power_ref
    then u8 (div_num + 1)
    else div_num

-- `vco_div`: 65536 times the ratio of the VCO frequency to twice the reference, rounded.
unfoldable pub vco_ratio : ℕ → ℕ → ℕ → ℕ
vco_ratio pll_ref freq mix_div = (pll_ref + 65536 * (freq * mix_div)) % 2 ^ 64 / u32 (2 * pll_ref)

-- `(nint - 13) / 4` on signed numbers, stored in eight bits.
unfoldable pub ni_of : ℕ → ℕ
ni_of nint = if leb 13 nint then (nint - 13) / 4 else sub_u8 0 ((13 - nint) / 4)

-- `nint - 4 * ni - 13`, stored in eight bits.
unfoldable pub si_of : ℕ → ℕ
si_of nint = u8 (nint + 8 * 2 ^ 8 - 4 * ni_of nint - 13)

-- Registers 0x10 to 0x16 for a ratio.
unfoldable pub pll_bytes : ℕ → ℕ → List ℕ → List ℕ
pll_bytes vco_div div_num regs =
    let nint = u8 (u32 (vco_div / 65536)) in
    let sdm = u32 (vco_div % 65536) in
    let r0 = mask_reg8 (mask_reg8 (get_or regs 0 0) 0 0x10) (u8 (div_num <<< 5)) 0xe0 in
    let r2 =
      mask_reg8 (mask_reg8 (get_or regs 2 0) 0x80 0xe0) (if sdm == 0 then 0x08 else 0) 0x08 in
    r0
    ∷ get_or regs 1 0
    ∷ r2
    ∷ get_or regs 3 0
    ∷ u8 (ni_of nint + si_of nint <<< 6)
    ∷ bit_and sdm 0xff
    ∷ u8 (sdm >>> 8)
    ∷ []

-- The bytes for a frequency, or -1 where the integer part is out of the chip's range.
unfoldable pub pll_program : Config → ℕ → ℕ → List ℕ → Result (List ℕ)
pll_program cfg freq fine_tune regs = elim (divider (freq_khz freq)) [
  | none ↦ diverges
  | some (mix_div, div_num) ↦
      let power_ref = vco_power_ref cfg.rafael_chip in
      let vco_div = vco_ratio cfg.xtal freq mix_div in
      if ltb (128 / power_ref - 1) (u8 (u32 (vco_div / 65536)))
      then err 0
      else ok (pll_bytes vco_div (tuned power_ref fine_tune div_num) regs)
]

abbrev pub locked : List ℕ → Bool
locked bytes = not (bit_and (get_or bytes 2 0) 0x40 == 0)

module _ {S : Type 0} (b : Bus S) where
  -- The two rounds of the lock check. Only the first, if it finds no lock, raises the VCO current.
  unfoldable pub wait_lock : Driver S Bool
  wait_lock = do
    first ← read b 0x00 3
    if locked first
        then pure true
        else do write_reg_mask b 0x12 0x60 0xe0; second ← read b 0x00 3; pure (locked second)

  unfoldable pub set_pll : ℕ → Driver S (Unit {0})
  set_pll freq = do
    write_reg_mask b 0x1a 0x00 0x0c
    regs ← gets (λ s. take 7 (drop (0x10 - reg_shadow_start) s.regs))
    bytes ← read b 0x00 5
    cfg ← gets (λ s. s.cfg)
    program ← lift (pll_program cfg freq (bit_and (get_or bytes 4 0) 0x30 >>> 4) regs)
    write b 0x10 program
    lock ← wait_lock
    modify (λ s. record s { has_lock = lock })
    if lock then write_reg_mask b 0x1a 0x08 0x08 else pure tt
