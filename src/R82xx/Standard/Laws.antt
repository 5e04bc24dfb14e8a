-- ===== src/R82xx/Standard/Laws.antt =====
-- Calibration and filter set-up keep shadow and chip in agreement once both hold the initial values.
use rtlsdrwrapper.Base.{
  ℕ, zero, suc, Bool, true, ◌≡◌, refl, sym, ap, ◌∙◌, if◌then◌else◌, List, get_or,
}
use rtlsdrwrapper.R82xx.State.{Priv, Bus, DeliverySystem, TunerType, Driver, pure, ◌>>=◌}
use rtlsdrwrapper.R82xx.State.Keeps.{OnOk, Keeps, Keeps-bind, Keeps-if, keeps_rules}
use rtlsdrwrapper.R82xx.Shadow.Coherent.{HasRegisters, IsCoherent}
use rtlsdrwrapper.R82xx.Shadow.Rules.{coherent_rules}
use rtlsdrwrapper.R82xx.Pll.Laws.{set_pll-IsCoherent}
use rtlsdrwrapper.R82xx.Standard.{
  init_array, trigger, unless_done, round, calibrate, set_filter, program_standard, set_tv_standard,
}

module _ {S : Type 0} (b : Bus S) (addr : ℕ) (chip : HasRegisters b addr) where
  trigger-IsCoherent : Keeps (IsCoherent b addr chip) (trigger b)
  unfolding trigger
  trigger-IsCoherent = search coherent_rules depth 20

  unless_done-IsCoherent :
      (again : Driver S Bool)
      → Keeps (IsCoherent b addr chip) again
      → Keeps (IsCoherent b addr chip) (unless_done b again)
  unfolding unless_done
  unless_done-IsCoherent again h =
      Keeps-bind (trigger b) (λ done. if done then pure true else again) trigger-IsCoherent
        (λ done. Keeps-if done (pure true) again (search keeps_rules) h)

  round-IsCoherent :
      (again : Driver S Bool)
      → Keeps (IsCoherent b addr chip) again
      → Keeps (IsCoherent b addr chip) (round b again)
  unfolding round
  round-IsCoherent again h = Keeps-bind _ _ (search coherent_rules) λ _.
      Keeps-bind _ _ (search coherent_rules) λ _. Keeps-bind _ _ (search coherent_rules) λ _.
        Keeps-bind _ _ (set_pll-IsCoherent b addr chip _) (λ _.
          Keeps-bind _ _ (search coherent_rules)
            (λ lock. Keeps-if lock _ _ (unless_done-IsCoherent again h) (search coherent_rules)))

  pub calibrate-IsCoherent : (rounds : ℕ) → Keeps (IsCoherent b addr chip) (calibrate b rounds)
  unfolding calibrate
  calibrate-IsCoherent zero = search coherent_rules
  calibrate-IsCoherent (suc rounds) = round-IsCoherent _ (calibrate-IsCoherent rounds)

  pub set_filter-IsCoherent :
      (bw : ℕ) (type : TunerType) (delsys : DeliverySystem)
      → Keeps (IsCoherent b addr chip) (set_filter b bw type delsys)
  unfolding set_filter
  set_filter-IsCoherent bw type delsys = search coherent_rules depth 30

  program_standard-IsCoherent :
      (bw : ℕ) (type : TunerType) (delsys : DeliverySystem)
      → Keeps (IsCoherent b addr chip) (program_standard b bw type delsys)
  unfolding program_standard
  program_standard-IsCoherent bw type delsys =
      search (coherent_rules, calibrate-IsCoherent, set_filter-IsCoherent) depth 20

  -- The shadow is reset to the initial values: where it holds them already nothing changes.
  reset-IsCoherent :
      (s : Priv S)
      → s.regs ≡ init_array
      → IsCoherent b addr chip s
      → IsCoherent b addr chip (record s { regs = init_array })
  reset-IsCoherent s e h = record {
    at_addr = h.at_addr;
    room = h.room;
    size = refl;
    same = λ i l. ap (λ (r : List ℕ). get_or r i 0) (sym e) ∙ h.same i l;
  }

  -- From a state whose shadow holds the initial values, `r82xx_set_tv_standard` returns and keeps
  -- shadow and chip in agreement if it succeeds.
  pub set_tv_standard-OnOk :
      (bw : ℕ) (type : TunerType) (delsys : DeliverySystem) (s : Priv S)
      → s.regs ≡ init_array
      → IsCoherent b addr chip s
      → OnOk
          (set_tv_standard b bw type delsys s).0
          (IsCoherent b addr chip (set_tv_standard b bw type delsys s).1)
  unfolding set_tv_standard ◌>>=◌
  set_tv_standard-OnOk bw type delsys s e h =
      (program_standard-IsCoherent bw type delsys).at (record s { regs = init_array })
        (reset-IsCoherent s e h)
