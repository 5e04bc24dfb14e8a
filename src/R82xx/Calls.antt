-- ===== src/R82xx/Calls.antt =====
-- The entry points of tuner_r82xx.c that librtlsdr.c calls once the tuner is initialised, as values,
-- and sequences of such calls.
pub mod Laws
use rtlsdrwrapper.Base.{ℕ, Bool, List, [], ◌∷◌}
use rtlsdrwrapper.Base.Int.{ℤ}
use rtlsdrwrapper.R82xx.State.{Bus, Driver, ◌>>=◌, ◌>>◌, pure}
use rtlsdrwrapper.R82xx.Bandwidth.{set_bandwidth}
use rtlsdrwrapper.R82xx.Gain.{set_gain}
use rtlsdrwrapper.R82xx.Init.{standby}
use rtlsdrwrapper.R82xx.Tune.{set_freq}

-- `r820t_set_freq`, `r820t_set_bw` (its first part), `r820t_set_gain` and `r820t_set_gain_mode`,
-- `r820t_exit`.
pub data Call : Type 0 where
  call_set_freq : ℕ → Call
  call_set_bandwidth : ℤ → ℕ → Call
  call_set_gain : Bool → ℤ → Call
  call_standby : Call

module _ {S : Type 0} (b : Bus S) where
  pub run : Call → Driver S (Unit {0})
  run (call_set_freq freq) = set_freq b freq
  run (call_set_bandwidth bw rate) = do int_freq ← set_bandwidth b bw rate; pure tt
  run (call_set_gain manual gain) = set_gain b manual gain
  run call_standby = standby b

  -- One call after the other, up to the first that fails.
  pub run_all : List Call → Driver S (Unit {0})
  run_all [] = pure tt
  run_all (c ∷ cs) = do run c; run_all cs
