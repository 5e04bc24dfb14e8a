-- ===== src/R82xx/Tune/Laws.antt =====
-- Tuning keeps shadow and chip in agreement.
use rtlsdrwrapper.Base.{ℕ, Bool}
use rtlsdrwrapper.R82xx.State.{Bus}
use rtlsdrwrapper.R82xx.State.{Bus}
use rtlsdrwrapper.R82xx.State.Keeps.{Keeps}
use rtlsdrwrapper.R82xx.Shadow.Coherent.{HasRegisters, IsCoherent}
use rtlsdrwrapper.R82xx.Shadow.Rules.{coherent_rules}
use rtlsdrwrapper.R82xx.State.Keeps.{OnOk}
use rtlsdrwrapper.R82xx.Mux.Laws.{set_mux-IsCoherent}
use rtlsdrwrapper.R82xx.Pll.Laws.{set_pll-IsCoherent}
use rtlsdrwrapper.R82xx.Shadow.Rules.{device-IsCoherent}
use rtlsdrwrapper.R82xx.Tune.{
  bias_tee, returned_ok, select_band, blog_v4_input, switch_input, standard_input, set_freq,
}
use rtlsdrwrapper.Base.Int.{ℤ, pos, negsuc}

OnOk-returned_ok : (rc : ℤ) (T : Type 0) → T → OnOk (returned_ok rc) T
OnOk-returned_ok (pos n) T h = h
OnOk-returned_ok (negsuc n) T h = tt

module _ {S : Type 0} (b : Bus S) (addr : ℕ) (chip : HasRegisters b addr) where
  bias_tee-IsCoherent : (gpio : ℕ) (on : Bool) → Keeps (IsCoherent b addr chip) (bias_tee b gpio on)
  unfolding bias_tee
  bias_tee-IsCoherent gpio on = record {
    at = λ s h.
        let r = b.set_bias_tee_gpio gpio on s.rtl_dev in
        OnOk-returned_ok r.0 _
          (device-IsCoherent b addr chip s r.1 (chip.gpio_law gpio on s.rtl_dev) h);
  }

  select_band-IsCoherent : (band : ℕ) → Keeps (IsCoherent b addr chip) (select_band b band)
  unfolding select_band
  select_band-IsCoherent band = search (coherent_rules, bias_tee-IsCoherent) depth 20

  blog_v4_input-IsCoherent : (freq : ℕ) → Keeps (IsCoherent b addr chip) (blog_v4_input b freq)
  unfolding blog_v4_input
  blog_v4_input-IsCoherent freq = search (coherent_rules, select_band-IsCoherent) depth 20

  switch_input-IsCoherent : (v : ℕ) → Keeps (IsCoherent b addr chip) (switch_input b v)
  unfolding switch_input
  switch_input-IsCoherent v = search coherent_rules depth 20

  standard_input-IsCoherent : (freq : ℕ) → Keeps (IsCoherent b addr chip) (standard_input b freq)
  unfolding standard_input
  standard_input-IsCoherent freq = search (coherent_rules, switch_input-IsCoherent) depth 20

  -- `r82xx_set_freq` returns for every frequency, and if it succeeds shadow and chip agree.
  pub set_freq-IsCoherent : (freq : ℕ) → Keeps (IsCoherent b addr chip) (set_freq b freq)
  unfolding set_freq
  set_freq-IsCoherent freq =
      search
        (
          coherent_rules, set_mux-IsCoherent, set_pll-IsCoherent, blog_v4_input-IsCoherent,
          standard_input-IsCoherent,
        )
        depth 20
