-- ===== src/R82xx/Calls/Laws.antt =====
-- Any sequence of calls keeps the agreement of shadow and chip.
use rtlsdrwrapper.Base.{ℕ, List, [], ◌∷◌}
use rtlsdrwrapper.R82xx.State.{Priv, Bus}
use rtlsdrwrapper.R82xx.State.Keeps.{OnOk, Keeps, Keeps-bind, Keeps-pure}
use rtlsdrwrapper.R82xx.Shadow.Coherent.{HasRegisters, IsCoherent}
use rtlsdrwrapper.R82xx.Bandwidth.Laws.{set_bandwidth-IsCoherent}
use rtlsdrwrapper.R82xx.Gain.Laws.{set_gain-IsCoherent}
use rtlsdrwrapper.R82xx.Init.Laws.{standby-IsCoherent}
use rtlsdrwrapper.R82xx.Tune.Laws.{set_freq-IsCoherent}
use rtlsdrwrapper.R82xx.Calls.{
  Call, call_set_freq, call_set_bandwidth, call_set_gain, call_standby, run, run_all,
}

module _ {S : Type 0} (b : Bus S) (addr : ℕ) (chip : HasRegisters b addr) where
  run-IsCoherent : (c : Call) → Keeps (IsCoherent b addr chip) (run b c)
  unfolding run
  run-IsCoherent (call_set_freq freq) = set_freq-IsCoherent b addr chip freq
  run-IsCoherent (call_set_bandwidth bw rate) =
      Keeps-bind _ _ (set_bandwidth-IsCoherent b addr chip bw rate) (λ _. Keeps-pure tt)
  run-IsCoherent (call_set_gain manual gain) = set_gain-IsCoherent b addr chip manual gain
  run-IsCoherent call_standby = standby-IsCoherent b addr chip

  run_all-Keeps : (cs : List Call) → Keeps (IsCoherent b addr chip) (run_all b cs)
  unfolding run_all
  run_all-Keeps [] = Keeps-pure tt
  run_all-Keeps (c ∷ cs) = Keeps-bind _ _ (run-IsCoherent c) (λ _. run_all-Keeps cs)

  -- From agreement of shadow and chip every sequence of calls of set_freq, set_bandwidth, set_gain
  -- and standby returns, and if none of them fails shadow and chip agree behind it.
  pub run_all-IsCoherent :
      (cs : List Call) (s : Priv S)
      → IsCoherent b addr chip s
      → OnOk (run_all b cs s).0 (IsCoherent b addr chip (run_all b cs s).1)
  run_all-IsCoherent cs s h = (run_all-Keeps cs).at s h
