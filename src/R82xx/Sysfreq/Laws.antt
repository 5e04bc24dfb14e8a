-- ===== src/R82xx/Sysfreq/Laws.antt =====
-- Choosing a broadcast system keeps shadow and chip in agreement.
use rtlsdrwrapper.Base.{ℕ}
use rtlsdrwrapper.R82xx.State.{Bus, DeliverySystem, TunerType}
use rtlsdrwrapper.R82xx.State.Keeps.{Keeps, Keeps-bind, Keeps-if}
use rtlsdrwrapper.R82xx.Shadow.Coherent.{HasRegisters, IsCoherent}
use rtlsdrwrapper.R82xx.Shadow.Rules.{coherent_rules}
use rtlsdrwrapper.R82xx.Sysfreq.{
  SysfreqSettings, lna_digital, lna_analog, set_thresholds, sysfreq_settings, sysfreq_sel,
}

module _ {S : Type 0} (b : Bus S) (addr : ℕ) (chip : HasRegisters b addr) where
  lna_digital-IsCoherent : (c : SysfreqSettings) → Keeps (IsCoherent b addr chip) (lna_digital b c)
  unfolding lna_digital
  lna_digital-IsCoherent c = search coherent_rules depth 20

  lna_analog-IsCoherent : (c : SysfreqSettings) → Keeps (IsCoherent b addr chip) (lna_analog b c)
  unfolding lna_analog
  lna_analog-IsCoherent c = search coherent_rules depth 20

  set_thresholds-IsCoherent :
      (c : SysfreqSettings) → Keeps (IsCoherent b addr chip) (set_thresholds b c)
  unfolding set_thresholds
  set_thresholds-IsCoherent c = search coherent_rules depth 30

  -- `r82xx_sysfreq_sel` returns, and if it succeeds shadow and chip agree.
  pub sysfreq_sel-IsCoherent :
      (freq : ℕ) (type : TunerType) (delsys : DeliverySystem)
      → Keeps (IsCoherent b addr chip) (sysfreq_sel b freq type delsys)
  unfolding sysfreq_sel
  sysfreq_sel-IsCoherent freq type delsys =
      Keeps-bind _ _ (set_thresholds-IsCoherent (sysfreq_settings freq delsys)) (λ _.
        Keeps-if _ _ _ (lna_analog-IsCoherent (sysfreq_settings freq delsys))
          (lna_digital-IsCoherent (sysfreq_settings freq delsys)))
