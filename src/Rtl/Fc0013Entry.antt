-- ===== src/Rtl/Fc0013Entry.antt =====
-- The FC0013's entry of the table `tuners` of librtlsdr.c: _fc0013_init to _fc0013_set_gain.
use rtlsdrwrapper.Base.{ℕ, List, some, none, not}
use rtlsdrwrapper.Base.Int.{ℤ}
use rtlsdrwrapper.Fc0013.{init, set_params, set_gain_mode, set_lna_gain}
use rtlsdrwrapper.Rtl.Usb.{Usb}
use rtlsdrwrapper.Rtl.Device.{Action, Tuner, is_zero}
use rtlsdrwrapper.Rtl.Dongle.{Dongle, dongle_bus}
use rtlsdrwrapper.Rtl.Fc0012Entry.{call_fc0012, nothing}

module _ {H : Type 0} (usb : Usb H) (stack : List ℕ) where
  fc0013_init : Action (Dongle H)
  unfolding init call_fc0012 dongle_bus
  fc0013_init = call_fc0012 (init (dongle_bus usb stack))

  -- `rtlsdr_get_tuner_clock` is `corrected` on the tuner's crystal.
  fc0013_set_freq : (ℕ → ℤ → ℕ) → ℕ → Action (Dongle H)
  unfolding set_params call_fc0012 dongle_bus
  fc0013_set_freq corrected freq s =
      call_fc0012 (set_params (dongle_bus usb stack) (corrected s.tun_xtal s.corr) freq 6000000) s

  fc0013_set_gain : ℤ → Action (Dongle H)
  unfolding set_lna_gain call_fc0012 dongle_bus
  fc0013_set_gain gain = call_fc0012 (set_lna_gain (dongle_bus usb stack) gain)

  fc0013_set_gain_mode : ℤ → Action (Dongle H)
  unfolding set_gain_mode call_fc0012 dongle_bus
  fc0013_set_gain_mode manual =
      call_fc0012 (set_gain_mode (dongle_bus usb stack) (not (is_zero manual)))

  pub fc0013_tuner : (ℕ → ℤ → ℕ) → Tuner (Dongle H)
  unfolding fc0013_init fc0013_set_freq fc0013_set_gain fc0013_set_gain_mode
  fc0013_tuner corrected = record {
    init = some fc0013_init;
    exit = some nothing;
    set_freq = some (fc0013_set_freq corrected);
    set_bw = some (λ bw. nothing);
    set_gain = some fc0013_set_gain;
    set_if_gain = none;
    set_gain_mode = some fc0013_set_gain_mode;
  }
