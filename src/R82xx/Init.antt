-- ===== src/R82xx/Init.antt =====
-- `r82xx_init`, `r82xx_standby` and `r82xx_xtal_check` of tuner_r82xx.c.
pub mod Laws
use rtlsdrwrapper.Base.{ℕ, zero, suc, Bool, true, false, not, ◌&&◌, ◌||◌, ◌==◌, ltb, if◌then◌else◌}
use rtlsdrwrapper.Base.{List, [], ◌∷◌, bit_and, get_or, replicate}
use rtlsdrwrapper.R82xx.State.{Priv, Bus, Driver, XtalCapValue, xtal_low_cap_30p, xtal_low_cap_20p}
use rtlsdrwrapper.R82xx.State.{
  xtal_low_cap_10p, xtal_low_cap_0p, xtal_high_cap_0p, tuner_digital_tv,
}
use rtlsdrwrapper.R82xx.State.{sys_undefined, sys_dvbt, unset, ◌>>=◌, ◌>>◌, gets, modify, pure}
use rtlsdrwrapper.R82xx.State.{raise, ignoring, finally}
use rtlsdrwrapper.R82xx.Shadow.{num_regs, write, write_reg, write_reg_mask, read}
use rtlsdrwrapper.R82xx.Sysfreq.{sysfreq_sel}
use rtlsdrwrapper.R82xx.Standard.{init_array, set_tv_standard}

abbrev pub xtal_capacitor : List (ℕ × XtalCapValue)
xtal_capacitor =
    (0x0b, xtal_low_cap_30p)
    ∷ (0x02, xtal_low_cap_20p)
    ∷ (0x01, xtal_low_cap_10p)
    ∷ (0x00, xtal_low_cap_0p)
    ∷ (0x10, xtal_high_cap_0p)
    ∷ []

-- The test at which the loop of `r82xx_xtal_check` is left.
abbrev accepts : ℕ → ℕ → Bool
accepts xtal byte =
    let val = bit_and byte 0x3f in
    not (bit_and byte 0x40 == 0)
    && ((xtal == 16000000 && (ltb 29 val || ltb val 23)) || not (val == 0x3f))

module _ {S : Type 0} (b : Bus S) where
  -- The type is set whatever the last write returns.
  power_down : Driver S (Unit {0})
  power_down = do
    write_reg b 0x06 0xb1
    write_reg b 0x05 0xa0
    write_reg b 0x07 0x3a
    write_reg b 0x08 0x40
    write_reg b 0x09 0xc0
    write_reg b 0x0a 0x36
    write_reg b 0x0c 0x35
    write_reg b 0x0f 0x68
    write_reg b 0x11 0x03
    write_reg b 0x17 0xf4
    finally (write_reg b 0x19 0x0c) (λ s. record s { tuner_type = unset })

  pub standby : Driver S (Unit {0})
  unfolding power_down
  standby = do done ← gets (λ s. s.init_done); if done then power_down else pure tt

  try_capacitors : List (ℕ × XtalCapValue) → Driver S XtalCapValue
  try_capacitors [] = raise 0
  try_capacitors ((cap, value) ∷ more) =
      let next = try_capacitors more in
      do
        write_reg_mask b 0x10 cap 0x1b
        bytes ← read b 0x00 3
        cfg ← gets (λ s. s.cfg)
        if accepts cfg.xtal (get_or bytes 2 0) then pure value else next

  pub xtal_check : Driver S XtalCapValue
  unfolding try_capacitors
  xtal_check = do
    modify (λ s. record s { regs = init_array })
    write_reg_mask b 0x10 0x0b 0x0b
    write_reg_mask b 0x1a 0x00 0x0c
    write_reg_mask b 0x13 0x7f 0x7f
    write_reg_mask b 0x13 0x00 0x40
    try_capacitors xtal_capacitor

  -- What `r82xx_init` does behind its first write.
  set_up : Driver S (Unit {0})
  set_up = do
    set_tv_standard b 3 tuner_digital_tv sys_undefined
    finally (sysfreq_sel b 0 tuner_digital_tv sys_dvbt) (λ s. record s { init_done = true })

  -- The result of the first write is overwritten by the next call's.
  pub init : Driver S (Unit {0})
  unfolding set_up
  init = do
    modify (λ s. record s { xtal_cap_sel = xtal_high_cap_0p; regs = replicate num_regs 0 })
    ignoring (write b 0x05 init_array)
    set_up
