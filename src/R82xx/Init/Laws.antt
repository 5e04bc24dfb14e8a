-- ===== src/R82xx/Init/Laws.antt =====
-- Initialisation brings shadow and chip into agreement; standby keeps it.
use rtlsdrwrapper.Base.{ℕ, false, ◌≡◌, refl, replicate}
use rtlsdrwrapper.R82xx.State.{Priv, Bus, Result, ok, err, diverges, xtal_high_cap_0p, ◌>>=◌}
use rtlsdrwrapper.R82xx.State.{ignoring, tuner_digital_tv, sys_undefined}
use rtlsdrwrapper.R82xx.State.Keeps.{OnOk-continue, OnOk, Keeps}
use rtlsdrwrapper.R82xx.Shadow.{shadow_equal, write, num_regs, reg_shadow_start}
use rtlsdrwrapper.R82xx.Shadow.Coherent.{HasRegisters, HasRoom, IsCoherent}
use rtlsdrwrapper.R82xx.Shadow.Rules.{coherent_rules, fresh_write}
use rtlsdrwrapper.R82xx.Sysfreq.Laws.{sysfreq_sel-IsCoherent}
use rtlsdrwrapper.R82xx.Standard.{init_array, set_tv_standard}
use rtlsdrwrapper.R82xx.Standard.Laws.{set_tv_standard-OnOk}
use rtlsdrwrapper.R82xx.Init.{power_down, standby, set_up, init}

-- The content of a success.
ok_part : {T : Type 0} (r : Result (Unit {0})) → r ≡ ok tt → OnOk r T → T
ok_part (ok a) e h = h
ok_part (err n) e h = absurd (cc)
ok_part diverges e h = elim h [ ]

module _ {S : Type 0} (b : Bus S) (addr : ℕ) (chip : HasRegisters b addr) where
  power_down-IsCoherent : Keeps (IsCoherent b addr chip) (power_down b)
  unfolding power_down
  power_down-IsCoherent = search coherent_rules depth 30

  -- `r82xx_standby` returns, and if it succeeds shadow and chip agree.
  pub standby-IsCoherent : Keeps (IsCoherent b addr chip) (standby b)
  unfolding standby
  standby-IsCoherent = search (coherent_rules, power_down-IsCoherent) depth 20

  -- What the state is when `r82xx_init` makes its first write.
  abbrev cleared : Priv S → Priv S
  cleared s = record s { xtal_cap_sel = xtal_high_cap_0p; regs = replicate num_regs 0 }

  after_write :
      (t : Priv S)
      → IsCoherent b addr chip t × (t.regs ≡ init_array)
      → OnOk (set_up b t).0 (IsCoherent b addr chip (set_up b t).1)
  unfolding set_up ◌>>=◌
  after_write t (h, e) =
      OnOk-continue {P = IsCoherent b addr chip}
        (set_tv_standard b 3 tuner_digital_tv sys_undefined t).0 _ _
        (set_tv_standard-OnOk b addr chip 3 tuner_digital_tv sys_undefined t e h)
        (λ _. search (coherent_rules, sysfreq_sel-IsCoherent))

  -- If the device takes the first write of `r82xx_init`, the function returns, and if it succeeds
  -- shadow and chip agree.
  pub init-IsCoherent :
      (s : Priv S)
      → s.cfg.i2c_addr ≡ addr
      → HasRoom s.cfg
      → (write b 0x05 init_array (cleared s)).0 ≡ ok tt
      → OnOk (init b s).0 (IsCoherent b addr chip (init b s).1)
  unfolding init ignoring ◌>>=◌
  init-IsCoherent s at room taken =
      let different : shadow_equal (replicate num_regs 0) reg_shadow_start init_array ≡ false =
        unfold shadow_equal in refl in
      let w = write b 0x05 init_array (cleared s) in
      let fresh : IsCoherent b addr chip w.1 × (w.1.regs ≡ init_array) =
        ok_part w.0 taken
          (fresh_write b addr chip init_array (cleared s) refl refl at room different) in
      rw taken (after_write w.1 fresh)
