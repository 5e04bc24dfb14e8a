-- ===== src/Rtl/Fc0012Entry.antt =====
-- The FC0012's entry of the table `tuners` of librtlsdr.c: _fc0012_init to fc0012_set_gain_mode.
use rtlsdrwrapper.Base.{ℕ, List, some, none, ltb}
use rtlsdrwrapper.Base.Int.{ℤ, pos}
use rtlsdrwrapper.Fc0012.{Attempt, init, set_params, set_gain}
use rtlsdrwrapper.Rtl.Usb.{Usb, set_gpio_bit}
use rtlsdrwrapper.Rtl.Device.{Action, Tuner, code}
use rtlsdrwrapper.Rtl.Dongle.{Dongle, dongle_bus}

module _ {H : Type 0} where
  unfoldable pub call_fc0012 : Attempt (Dongle H) → Action (Dongle H)
  call_fc0012 m s = let (good, d) = m s.devh in (code good, record s { devh = d })

  -- `return 0`
  abbrev pub nothing : Action (Dongle H)
  nothing s = (pos 0, s)

module _ {H : Type 0} (usb : Usb H) (stack : List ℕ) where
  fc0012_init : Action (Dongle H)
  unfolding init call_fc0012 dongle_bus
  fc0012_init = call_fc0012 (init (dongle_bus usb stack))

  -- `rtlsdr_get_tuner_clock` is `corrected` on the tuner's crystal.
  fc0012_set_freq : (ℕ → ℤ → ℕ) → ℕ → Action (Dongle H)
  unfolding set_params set_gpio_bit call_fc0012 dongle_bus
  fc0012_set_freq corrected freq s =
      let d = set_gpio_bit usb stack 6 (ltb 300000000 freq) s.devh.handle in
      call_fc0012 (set_params (dongle_bus usb stack) (corrected s.tun_xtal s.corr) freq 6000000)
        (record s { devh = record s.devh { handle = d } })

  fc0012_set_gain : ℤ → Action (Dongle H)
  unfolding set_gain call_fc0012 dongle_bus
  fc0012_set_gain gain = call_fc0012 (set_gain (dongle_bus usb stack) gain)

  pub fc0012_tuner : (ℕ → ℤ → ℕ) → Tuner (Dongle H)
  unfolding fc0012_init fc0012_set_freq fc0012_set_gain
  fc0012_tuner corrected = record {
    init = some fc0012_init;
    exit = some nothing;
    set_freq = some (fc0012_set_freq corrected);
    set_bw = some (λ bw. nothing);
    set_gain = some fc0012_set_gain;
    set_if_gain = none;
    set_gain_mode = some (λ manual. nothing);
  }
