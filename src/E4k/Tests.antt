-- ===== src/E4k/Tests.antt =====
-- A chip with registers of a byte, a bus without a chip, and instances of the laws of the E4000.
use rtlsdrwrapper.Base.{ℕ, ◌+◌, ◌-◌, ◌*◌, ◌%◌, ◌<◌, ◌≡◌, ◌⊎◌, refl, arith, bit_and}
use rtlsdrwrapper.Base.{false, List, [], ◌∷◌, get_or, ◌==◌, if◌then◌else◌, some}
use rtlsdrwrapper.Base.Int.{ℤ, pos, negsuc}
use rtlsdrwrapper.R82xx.State.{Bus}
use rtlsdrwrapper.E4k.State.{E4k, PllParams, vhf2}
use rtlsdrwrapper.E4k.Regs.{reg_read, reg_set_mask}
use rtlsdrwrapper.E4k.Regs.Laws.{HasBytes, Masked, byte_of, reg_set_mask-Masked, reg_set_mask-blind}
use rtlsdrwrapper.E4k.Regs.Fields.{Readable}
use rtlsdrwrapper.E4k.Filter.{mix, if_filter_bw, if_filter_bw_set, if_filter_bw_get}
use rtlsdrwrapper.E4k.Filter.Nearest.{IsNearest}
use rtlsdrwrapper.E4k.Filter.ReadBack.{if_filter_bw_set-get}
use rtlsdrwrapper.E4k.Pll.{find_setting, setting_for, compute_pll_params, tune_freq}
use rtlsdrwrapper.E4k.Pll.Accuracy.{IsAccurate, compute_pll_params-IsAccurate}
use rtlsdrwrapper.E4k.Pll.Chip.{HasSynth}
use rtlsdrwrapper.E4k.Pll.Tunes.{IsAnswered, Tuned, tune_freq-Tuned, tune_freq-blind}

-- The register that is selected, and the registers.
abbrev Chip : Type 0
Chip = ℕ × (ℕ → ℕ)

abbrev take_message : List ℕ → Chip → ℤ × Chip
take_message (reg ∷ []) (sel, f) = (pos 1, (reg, f))
take_message (reg ∷ val ∷ []) (sel, f) = (pos 2, (reg, λ j. if j == reg then val else f j))
take_message _ c = (negsuc 0, c)

abbrev chip_bus : Bus Chip
chip_bus = record {
  i2c_write_fn = λ addr bytes c. take_message bytes c;
  i2c_read_fn = λ addr len c. (pos 1, c.1 c.0 % 256 ∷ [], c);
  check_dongle_model = λ c. false;
  set_bias_tee_gpio = λ n on c. (pos 0, c);
}

abbrev chip_regs : Chip → ℕ → ℕ
chip_regs c j = c.1 j % 256

stored_byte :
    (f : ℕ → ℕ) (reg val j : ℕ)
    → val < 256
    → (if j == reg then val else f j) % 256 ≡ (if j == reg then val else f j % 256)
stored_byte f reg val j small = ground arith

chip-HasBytes : (addr : ℕ) → HasBytes chip_bus chip_regs addr
chip-HasBytes addr = record {
  byte_law = λ d j. omega arith;
  store_law = λ reg val d small done j. stored_byte d.1 reg val j small;
  select_law = λ reg d j. refl;
  keep_law = λ d j. refl;
  read_law = λ reg d sent got. refl;
}

-- A bus on which every transfer fails.
abbrev dead_bus : Bus Chip
dead_bus = record {
  i2c_write_fn = λ addr bytes c. (negsuc 0, c);
  i2c_read_fn = λ addr len c. (negsuc 0, [], c);
  check_dongle_model = λ c. false;
  set_bias_tee_gpio = λ n on c. (pos 0, c);
}

-- A bus that takes messages but gives no bytes.
abbrev mute_bus : Bus Chip
mute_bus = record {
  i2c_write_fn = λ addr bytes c. take_message bytes c;
  i2c_read_fn = λ addr len c. (negsuc 0, [], c);
  check_dongle_model = λ c. false;
  set_bias_tee_gpio = λ n on c. (pos 0, c);
}

mute-HasBytes : (addr : ℕ) → HasBytes mute_bus chip_regs addr
mute-HasBytes addr = record {
  byte_law = λ d j. omega arith;
  store_law = λ reg val d small done j. stored_byte d.1 reg val j small;
  select_law = λ reg d j. refl;
  keep_law = λ d j. refl;
  read_law = λ reg d sent got. absurd (ground arith);
}

abbrev no_params : PllParams
no_params = record {
  fosc = 28800000;
  intended_flo = 0;
  flo = 0;
  x = 0;
  z = 0;
  r = 2;
  r_idx = 0;
  threephase = false;
}

abbrev driver : E4k Chip
driver = record { i2c_addr = 0xc8; band = vhf2; vco = no_params; rtl_dev = (0, λ j. 0x5a) }

chip-Readable : (reg : ℕ) → Readable chip_bus chip_regs reg 0xc8
unfolding reg_read
chip-Readable reg e at h = ground arith

reg_set_mask-Masked_example :
    Masked chip_bus chip_regs 0x14 0x0f 9 driver (reg_set_mask chip_bus 0x14 0x0f 9 driver).1
unfolding reg_read reg_set_mask
reg_set_mask-Masked_example =
    reg_set_mask-Masked chip_bus chip_regs 0x14 0x0f 9 driver (chip-HasBytes 0xc8) (omega arith)
      (chip-Readable 0x14 driver refl) refl

reg_set_mask-blind_example :
    (◌≡◌ {A = ℕ} 9 0x0f)
    ⊎ (byte_of mute_bus chip_regs (reg_set_mask mute_bus 0x14 0x0f 9 driver).1 0x14
        ≡ 255 - 0x0f + bit_and 9 0x0f)
unfolding reg_read reg_set_mask
reg_set_mask-blind_example =
    reg_set_mask-blind mute_bus chip_regs 0x14 0x0f 9 driver (mute-HasBytes 0xc8) (omega arith) refl
      refl

if_filter_bw_set-get_example :
    (i : ℕ) × IsNearest 2000000 (if_filter_bw mix) i
    × ((if_filter_bw_get chip_bus mix (if_filter_bw_set chip_bus mix 2000000 driver).1).0
        ≡ pos (get_or (if_filter_bw mix) i 0))
unfolding if_filter_bw_set
if_filter_bw_set-get_example =
    if_filter_bw_set-get chip_bus chip_regs mix 2000000 driver (omega arith) (chip-HasBytes 0xc8)
      (chip-Readable 0x11) refl

vco_in_range : 100000000 * (setting_for 100000000).mult < 256 * 28800000
unfolding setting_for find_setting
vco_in_range = omega arith

compute_pll_params-IsAccurate_example :
    (p : PllParams) × (compute_pll_params 28800000 100000000 ≡ some p)
    × IsAccurate 28800000 p 100000000
compute_pll_params-IsAccurate_example =
    compute_pll_params-IsAccurate 28800000 100000000 (omega arith) (omega arith) (omega arith)
      (omega arith) vco_in_range

chip-IsAnswered : IsAnswered chip_bus 0xc8
unfolding reg_read
chip-IsAnswered e at = (_, omega arith, refl)

abbrev chip-HasSynth : HasSynth chip_bus 0xc8
chip-HasSynth = record {
  cell_of = λ c. c.1;
  store_law = λ reg val j c lo hi. refl;
  select_law = λ reg j c lo hi. refl;
  keep_law = λ j c lo hi. refl;
}

tune_freq-Tuned_example :
    Tuned chip_bus 0xc8 chip-HasSynth 100000000 driver (tune_freq chip_bus 100000000 driver)
tune_freq-Tuned_example =
    tune_freq-Tuned chip_bus 0xc8 chip-HasSynth 100000000 driver refl chip-IsAnswered (omega arith)
      (omega arith) (omega arith) (omega arith) vco_in_range

tune_freq-blind_example : (tune_freq dead_bus 100000000 driver).0 ≡ pos 0
unfolding reg_read
tune_freq-blind_example =
    tune_freq-blind dead_bus 100000000 driver (λ e. refl) (omega arith) (omega arith) (omega arith)
      (omega arith) vco_in_range
