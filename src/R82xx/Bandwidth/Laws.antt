-- ===== src/R82xx/Bandwidth/Laws.antt =====
-- Setting the bandwidth.
use rtlsdrwrapper.Base.{ℕ}
use rtlsdrwrapper.Base.Int.{ℤ}
use rtlsdrwrapper.R82xx.State.{Bus}
use rtlsdrwrapper.R82xx.State.Keeps.{Keeps}
use rtlsdrwrapper.R82xx.Shadow.Coherent.{HasRegisters, IsCoherent}
use rtlsdrwrapper.R82xx.Shadow.Rules.{coherent_rules}
use rtlsdrwrapper.R82xx.Bandwidth.{set_bandwidth}

module _ {S : Type 0} (b : Bus S) (addr : ℕ) (chip : HasRegisters b addr) where
  pub set_bandwidth-IsCoherent :
      (bw : ℤ) (rate : ℕ) → Keeps (IsCoherent b addr chip) (set_bandwidth b bw rate)
  unfolding set_bandwidth
  set_bandwidth-IsCoherent bw rate = search coherent_rules depth 20
