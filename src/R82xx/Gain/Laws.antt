-- ===== src/R82xx/Gain/Laws.antt =====
-- Setting the gain keeps shadow and chip in agreement.
use rtlsdrwrapper.Base.{ℕ, Bool, true, false}
use rtlsdrwrapper.Base.Int.{ℤ}
use rtlsdrwrapper.R82xx.State.{Bus}
use rtlsdrwrapper.R82xx.State.Keeps.{Keeps}
use rtlsdrwrapper.R82xx.Shadow.Coherent.{HasRegisters, IsCoherent}
use rtlsdrwrapper.R82xx.Shadow.Rules.{coherent_rules}
use rtlsdrwrapper.R82xx.Gain.{set_gain}

module _ {S : Type 0} (b : Bus S) (addr : ℕ) (chip : HasRegisters b addr) where
  pub set_gain-IsCoherent :
      (manual : Bool) (gain : ℤ) → Keeps (IsCoherent b addr chip) (set_gain b manual gain)
  unfolding set_gain
  set_gain-IsCoherent true gain = search coherent_rules depth 20
  set_gain-IsCoherent false gain = search coherent_rules depth 20
