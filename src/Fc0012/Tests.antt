-- ===== src/Fc0012/Tests.antt =====
-- An instance of the law on the divider.
use rtlsdrwrapper.Base.{ℕ, ◌≡◌, arith, List, some, get_or}
use rtlsdrwrapper.Fc0012.{pll_registers}
use rtlsdrwrapper.Fc0012.Divider.{StandsFor, divider_of, pll_registers-IsNear}

pll_registers-IsNear_example :
    (regs : List ℕ) × (pll_registers 14400000 100000000 6000000 ≡ some regs)
    × StandsFor
        (2100000000, 3784000000)
        100000000
        6000000
        (divider_of (get_or regs 4 0) (get_or regs 5 0))
        regs
pll_registers-IsNear_example = pll_registers-IsNear 100000000 6000000 (omega arith) (omega arith)
