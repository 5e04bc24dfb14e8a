-- ===== src/Fc0013/Tests.antt =====
-- Instances of the laws on the divider.
use rtlsdrwrapper.Base.{ℕ, ◌≡◌, inr, arith, List, [], some, false, get_or}
use rtlsdrwrapper.Base.Int.{pos}
use rtlsdrwrapper.R82xx.State.{Bus}
use rtlsdrwrapper.Fc0012.Divider.{StandsFor}
use rtlsdrwrapper.Fc0013.{lna_row, lna_gains, pll_registers, set_params}
use rtlsdrwrapper.Fc0013.Laws.{
  IsLeast, lna_row-IsLeast, divider_of, fc0013_pll_registers-IsNear, set_params_gap,
}

fc0013_pll_registers-IsNear_example :
    (regs : List ℕ) × (pll_registers 14400000 1090000000 6000000 ≡ some regs)
    × StandsFor
        (1900000000, 3794399999)
        1090000000
        6000000
        (divider_of (get_or regs 4 0) (get_or regs 5 0))
        regs
fc0013_pll_registers-IsNear_example =
    fc0013_pll_registers-IsNear 1090000000 6000000 (omega arith) (omega arith) (inr (omega arith))

-- A chip that answers every read with zeros.
abbrev silent_bus : Bus ℕ
silent_bus = record {
  i2c_write_fn = λ addr bytes s. (pos 2, s);
  i2c_read_fn = λ addr len s. (pos len, [], s);
  check_dongle_model = λ s. false;
  set_bias_tee_gpio = λ n on s. (pos 0, s);
}

set_params_gap_example : (set_params silent_bus 28800000 949000000 6000000 0).0 ≡ false
set_params_gap_example = set_params_gap silent_bus 949000000 6000000 0 (omega arith) (omega arith)

lna_row-IsLeast_example : IsLeast (pos 100) lna_gains (lna_row lna_gains (pos 100))
lna_row-IsLeast_example = lna_row-IsLeast (pos 100) (omega arith)
