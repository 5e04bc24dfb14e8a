-- ===== src/R82xx/Tests.antt =====
-- A chip with registers and nothing else, its driver behind initialisation, and instances of the laws.
use rtlsdrwrapper.Base.{ℕ, ◌+◌, ◌-◌, ◌*◌, ◌/◌, ◌≤◌, ◌<◌, ◌≡◌, refl, ap, arith, inl, inr}
use rtlsdrwrapper.Base.{true, false, List, [], ◌∷◌, get_or, length, replicate, some}
use rtlsdrwrapper.Base.Int.{ℤ, pos, negsuc}
use rtlsdrwrapper.R82xx.State.{Config, Priv, Bus, ok, err}
use rtlsdrwrapper.R82xx.State.{chip_r820t, xtal_high_cap_0p, sys_undefined, tuner_digital_tv}
use rtlsdrwrapper.R82xx.State.Keeps.{OnOk}
use rtlsdrwrapper.R82xx.Shadow.{
  write, send, shadow_store, shadow_equal, write_reg_mask, num_regs, reg_shadow_start,
}
use rtlsdrwrapper.R82xx.Shadow.Coherent.{HasRoom, HasRegisters, IsCoherent, written}
use rtlsdrwrapper.R82xx.Shadow.Reliable.{IsReliable, write_succeeds}
use rtlsdrwrapper.R82xx.Shadow.Laws.{
  Wrote, Masked, write_lem, write_reg_mask_lem, write_reg_mask-outside, write_again,
}
use rtlsdrwrapper.R82xx.Standard.{init_array}
use rtlsdrwrapper.R82xx.Calls.{
  call_set_freq, call_set_bandwidth, call_set_gain, call_standby, run_all,
}
use rtlsdrwrapper.R82xx.Pll.{tuned, freq_khz, vco_ratio, pll_bytes, pll_program, divider}
use rtlsdrwrapper.R82xx.Pll.Divider.{Divides, divider_found}
use rtlsdrwrapper.R82xx.Pll.Ratio.{decode, decode-pll_bytes, vco_ratio_nearest}
use rtlsdrwrapper.R82xx.Bandwidth.{filter_for}
use rtlsdrwrapper.R82xx.Bandwidth.Fit.{Covers, filter_for-fit}
use rtlsdrwrapper.R82xx.Pll.{vco_power_ref}
use rtlsdrwrapper.R82xx.Pll.Wrap.{pll_program_unreachable}
use rtlsdrwrapper.R82xx.Pll.Laws.{Divided, pll_program-Tunes}
use rtlsdrwrapper.R82xx.Mux.{range_of, first_range, more_ranges}
use rtlsdrwrapper.R82xx.Mux.Laws.{IsBand, range_of-IsBand}
use rtlsdrwrapper.R82xx.Gain.{find_gain}
use rtlsdrwrapper.R82xx.Gain.Search.{IsChosen, find_gain-IsChosen}
use rtlsdrwrapper.R82xx.Init.{init}
use rtlsdrwrapper.R82xx.Init.Laws.{init-IsCoherent}
use rtlsdrwrapper.R82xx.Calls.Laws.{run_all-IsCoherent}

abbrev Registers : Type 0
Registers = ℕ → ℕ

abbrev take_bytes : List ℕ → Registers → ℤ × Registers
take_bytes [] d = (pos 0, d)
take_bytes (reg ∷ val) d = (pos (length val + 1), written d reg val)

abbrev chip_bus : Bus Registers
chip_bus = record {
  i2c_write_fn = λ addr bytes d. take_bytes bytes d;
  i2c_read_fn = λ addr len d. (pos len, replicate len 0, d);
  check_dongle_model = λ d. false;
  set_bias_tee_gpio = λ n on d. (pos 0, d);
}

-- A bus on which every transfer fails.
abbrev dead_bus : Bus Registers
dead_bus = record chip_bus { i2c_write_fn = λ addr bytes d. (negsuc 8, d) }

abbrev chip_registers : HasRegisters chip_bus 0x34
chip_registers = record {
  reg_of = λ d. d;
  write_law = λ reg val d taken j. refl;
  read_law = λ len d j. refl;
  gpio_law = λ n on d j. refl;
}

abbrev config : Config
config = record {
  i2c_addr = 0x34;
  xtal = 28800000;
  rafael_chip = chip_r820t;
  max_i2c_msg_len = 8;
  use_predetect = false;
}

abbrev ready : Priv Registers
ready = record {
  cfg = config;
  regs = init_array;
  xtal_cap_sel = xtal_high_cap_0p;
  int_freq = 3570000;
  fil_cal_code = 0;
  input = 0;
  has_lock = false;
  init_done = true;
  delsys = sys_undefined;
  tuner_type = tuner_digital_tv;
  bw = 3;
  rtl_dev = λ j. get_or init_array (j - reg_shadow_start) 0;
}

config-HasRoom : HasRoom config
config-HasRoom = record { lower = omega arith; upper = omega arith }

ready-IsCoherent : IsCoherent chip_bus 0x34 chip_registers ready
ready-IsCoherent = record {
  at_addr = refl;
  room = config-HasRoom;
  size = refl;
  same = λ i l.
      let e : i ≡ reg_shadow_start + i - reg_shadow_start = omega arith in
      ap (λ k. get_or init_array k 0) e;
}

write_lem_example : OnOk (write chip_bus 0x10 (0x6c ∷ 0x01 ∷ []) ready).0 (
    Wrote chip_bus 0x34 chip_registers 0x10
      (0x6c ∷ 0x01 ∷ [])
      ready
      (write chip_bus 0x10 (0x6c ∷ 0x01 ∷ []) ready).1)
write_lem_example =
    write_lem chip_bus 0x34 chip_registers 0x10 (0x6c ∷ 0x01 ∷ []) ready (omega arith) (omega arith)
      ready-IsCoherent

write_reg_mask_lem_example : OnOk (write_reg_mask chip_bus 0x1a 0x41 0xc3 ready).0 (
    Masked chip_bus 0x34 chip_registers 0x1a 0x41 0xc3 ready
      (write_reg_mask chip_bus 0x1a 0x41 0xc3 ready).1)
write_reg_mask_lem_example =
    write_reg_mask_lem chip_bus 0x34 chip_registers 0x1a 0x41 0xc3 ready (omega arith) (omega arith)
      (omega arith) ready-IsCoherent

write_reg_mask-outside_example : write_reg_mask chip_bus 0x23 1 1 ready ≡ (err 0, ready)
write_reg_mask-outside_example = write_reg_mask-outside chip_bus 0x23 1 1 ready (inr (omega arith))

write_again_example :
    write dead_bus 0x1b (0xdf ∷ []) (write dead_bus 0x1b (0xdf ∷ []) ready).1
    ≡ (ok tt, (write dead_bus 0x1b (0xdf ∷ []) ready).1)
write_again_example = write_again dead_bus 0x1b (0xdf ∷ []) ready (omega arith) (omega arith) refl

run_all-IsCoherent_example :
    OnOk
      (run_all chip_bus
        (call_set_freq 100000000
          ∷ call_set_gain true (pos 254)
          ∷ call_set_bandwidth (pos 200000) 1000000
          ∷ call_standby
          ∷ [])
        ready).0
      (IsCoherent chip_bus 0x34 chip_registers
        (run_all chip_bus
          (call_set_freq 100000000
            ∷ call_set_gain true (pos 254)
            ∷ call_set_bandwidth (pos 200000) 1000000
            ∷ call_standby
            ∷ [])
          ready).1)
run_all-IsCoherent_example =
    run_all-IsCoherent chip_bus 0x34 chip_registers
      (call_set_freq 100000000
        ∷ call_set_gain true (pos 254)
        ∷ call_set_bandwidth (pos 200000) 1000000
        ∷ call_standby
        ∷ [])
      ready ready-IsCoherent

pll_program-Tunes_example :
    (bytes : List ℕ) × (n : ℕ) × (pll_program config 103570000 2 (replicate 7 0) ≡ ok bytes)
    × Divided config 103570000 2 n bytes
pll_program-Tunes_example =
    pll_program-Tunes config 103570000 2 (replicate 7 0) (inl (omega arith, omega arith))
      (omega arith) (omega arith)

divider_found_example : Divides 103570
divider_found_example = divider_found 103570 (omega arith) (omega arith)

decode-pll_bytes_example : decode (pll_bytes 1885390 3 (replicate 7 0)) ≡ 1885390
decode-pll_bytes_example = decode-pll_bytes 1885390 3 (replicate 7 0) (omega arith) (omega arith)

vco_ratio_nearest_example :
    (2 * 28800000 * vco_ratio 28800000 103570000 16 ≤ 65536 * (103570000 * 16) + 28800000)
    × (65536 * (103570000 * 16) < 2 * 28800000 * vco_ratio 28800000 103570000 16 + 28800000)
vco_ratio_nearest_example =
    vco_ratio_nearest 28800000 103570000 16 (omega arith) (omega arith) (omega arith) (omega arith)

range_of-IsBand_example :
    IsBand (first_range ∷ more_ranges) (309000000 / 1000000) (range_of 309000000)
range_of-IsBand_example = range_of-IsBand 309000000

find_gain-IsChosen_example : IsChosen (pos 254) (find_gain (pos 254))
find_gain-IsChosen_example = find_gain-IsChosen (pos 254)

-- What initialisation writes first, and the state that it leaves.
abbrev cleared_state : Priv Registers
cleared_state = record ready { xtal_cap_sel = xtal_high_cap_0p; regs = replicate num_regs 0 }

first_write : (write chip_bus 0x05 init_array cleared_state).0 ≡ ok tt
unfolding write send shadow_store shadow_equal
first_write = refl

init-IsCoherent_example :
    OnOk (init chip_bus ready).0 (IsCoherent chip_bus 0x34 chip_registers (init chip_bus ready).1)
init-IsCoherent_example =
    init-IsCoherent chip_bus 0x34 chip_registers ready refl config-HasRoom first_write

filter_for-fit_example : Covers 200000 (filter_for (pos 200000))
filter_for-fit_example = filter_for-fit 200000 (omega arith)

pll_program_unreachable_example :
    (divider (freq_khz 1850000000) ≡ some (128, 0))
    × (pll_program config 1850000000 2 (replicate 7 0)
        ≡ ok (
            pll_bytes
              (vco_ratio 28800000 1850000000 128)
              (tuned (vco_power_ref config.rafael_chip) 2 0)
              (replicate 7 0)))
pll_program_unreachable_example =
    pll_program_unreachable config 1850000000 2 (replicate 7 0) refl (omega arith) (omega arith)

chip_bus-IsReliable : IsReliable chip_bus 0x34
chip_bus-IsReliable [] d = refl
chip_bus-IsReliable (reg ∷ val) d = ap pos (omega arith)

write_succeeds_example : (write chip_bus 0x05 init_array ready).0 ≡ ok tt
write_succeeds_example =
    write_succeeds chip_bus 0x34 chip_bus-IsReliable 0x05 init_array ready refl config-HasRoom
      (omega arith) (omega arith)
