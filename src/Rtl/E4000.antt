-- ===== src/Rtl/E4000.antt =====
-- The E4000's entry of the table `tuners` of librtlsdr.c: the functions e4000_init to
-- e4000_set_gain_mode, which call tuner_e4k.c on the state that `struct rtlsdr_dev` holds.
pub mod Gains
use rtlsdrwrapper.Base.{
  ℕ, ◌+◌, ◌-◌, ◌*◌, ◌/◌, ◌^◌, ◌==◌, List, [], ◌∷◌, Bool, true, false, not, Option, none, some,
  if◌then◌else◌, u8,
}
use rtlsdrwrapper.Base.Int.{ℤ, pos, negsuc, ◌-ℤ◌, ltb_ℤ, eq_ℤ}
use rtlsdrwrapper.Base.Words.{to_word, of_word}
use rtlsdrwrapper.E4k.State.{E4k, Band, PllParams, Command, einval}
use rtlsdrwrapper.E4k.Filter.{mix, rc, chan, if_filter_bw_set}
use rtlsdrwrapper.E4k.Gain.{set_lna_gain, mixer_gain_set, if_gain_set, enable_manual_gain}
use rtlsdrwrapper.E4k.Init.{init, standby}
use rtlsdrwrapper.E4k.Pll.{tune_freq}
use rtlsdrwrapper.Rtl.Usb.{Usb}
use rtlsdrwrapper.Rtl.Device.{Device, Action, Tuner, is_zero, ◌|=◌}
use rtlsdrwrapper.Rtl.Dongle.{Dongle, dongle_bus}

-- What lies behind the handle of a device with this tuner: the dongle, and `e4k_s` less its pointer to
-- the dongle. For `vco.fosc` stands the field `e4k_fosc` of the device; that of `vco` here is not used.
pub record Chips (H : Type 0) : Type 0 where
  pub dongle : Dongle H
  pub i2c_addr : ℕ
  pub band : Band
  pub vco : PllParams

-- USB transfers of the dongle.
abbrev pub chips_usb : {H : Type 0} → Usb H → Usb (Chips H)
chips_usb usb = record {
  ctrl_out = λ value index bytes c.
      let (r, d) = usb.ctrl_out value index bytes c.dongle.handle in
      (r, record c { dongle = record c.dongle { handle = d } });
  ctrl_in = λ value index len c.
      let (r, bytes, d) = usb.ctrl_in value index len c.dongle.handle in
      (r, bytes, record c { dongle = record c.dongle { handle = d } });
}

abbrev pub min_ℤ : ℤ → ℤ → ℤ
min_ℤ a b = if ltb_ℤ a b then a else b

-- `gain / 10` on `int`, which cuts off towards zero.
abbrev tenth : ℤ → ℤ
tenth (pos n) = pos (n / 10)
tenth (negsuc n) = if (n + 1) / 10 == 0 then pos 0 else negsuc ((n + 1) / 10 - 1)

module _ {H : Type 0} where
  abbrev pub state_of : Device (Chips H) → E4k (Dongle H)
  state_of s = record {
    i2c_addr = s.devh.i2c_addr;
    band = s.devh.band;
    vco = record s.devh.vco { fosc = s.e4k_fosc };
    rtl_dev = s.devh.dongle;
  }

  abbrev pub with_state : E4k (Dongle H) → Device (Chips H) → Device (Chips H)
  with_state e s = record s {
    devh = record {
      dongle = e.rtl_dev;
      i2c_addr = e.i2c_addr;
      band = e.band;
      vco = record e.vco { fosc = s.devh.vco.fosc };
    };
    e4k_fosc = e.vco.fosc;
  }

  unfoldable pub call_e4k : Command (Dongle H) ℤ → Action (Chips H)
  call_e4k m s = let (r, e) = m (state_of s) in (r, with_state e s)

module _ {H : Type 0} (usb : Usb H) (stack : List ℕ) where
  -- `rtlsdr_get_xtal_freq`, as far as the tuner's crystal goes, is `corrected` on it.
  e4000_init : (ℕ → ℤ → ℕ) → Action (Chips H)
  unfolding init call_e4k dongle_bus
  e4000_init corrected s = call_e4k (init (dongle_bus usb stack)) (record s {
    devh = record s.devh { i2c_addr = 0xc8 };
    e4k_fosc = corrected s.tun_xtal s.corr;
  })

  e4000_exit : Action (Chips H)
  unfolding standby call_e4k dongle_bus
  e4000_exit = call_e4k (standby (dongle_bus usb stack) true)

  unfoldable pub e4000_set_freq : ℕ → Action (Chips H)
  unfolding tune_freq call_e4k dongle_bus
  e4000_set_freq freq = call_e4k (tune_freq (dongle_bus usb stack) freq)

  e4000_set_bw : ℕ → Action (Chips H)
  unfolding if_filter_bw_set ◌|=◌ call_e4k dongle_bus
  e4000_set_bw bw =
      (((λ s. (pos 0, s)) |= call_e4k (if_filter_bw_set (dongle_bus usb stack) mix bw))
        |= call_e4k (if_filter_bw_set (dongle_bus usb stack) rc bw))
      |= call_e4k (if_filter_bw_set (dongle_bus usb stack) chan bw)

  -- `if (f (...) == -EINVAL) return -1; g`
  unfoldable pub or_fail : Action (Chips H) → Action (Chips H) → Action (Chips H)
  or_fail f g s = let (r, s1) = f s in if eq_ℤ r einval then (negsuc 0, s1) else g s1

  unfoldable pub e4000_set_gain : ℤ → Action (Chips H)
  unfolding set_lna_gain mixer_gain_set or_fail call_e4k dongle_bus ◌-ℤ◌
  e4000_set_gain gain =
      let mixgain = if ltb_ℤ (pos 340) gain then 12 else 4 in
      or_fail
        (call_e4k
          (set_lna_gain (dongle_bus usb stack) (min_ℤ (pos 300) (gain -ℤ pos (mixgain * 10)))))
        (or_fail (call_e4k (mixer_gain_set (dongle_bus usb stack) (pos mixgain))) (λ s. (pos 0, s)))

  e4000_set_if_gain : ℤ → ℤ → Action (Chips H)
  unfolding if_gain_set call_e4k dongle_bus
  e4000_set_if_gain stage gain =
      call_e4k
        (if_gain_set (dongle_bus usb stack) (to_word 8 stage) (of_word 8 (to_word 8 (tenth gain))))

  e4000_set_gain_mode : ℤ → Action (Chips H)
  unfolding enable_manual_gain call_e4k dongle_bus
  e4000_set_gain_mode manual =
      call_e4k (enable_manual_gain (dongle_bus usb stack) (not (to_word 8 manual == 0)))

  pub e4000_tuner : (ℕ → ℤ → ℕ) → Tuner (Chips H)
  unfolding e4000_init e4000_exit e4000_set_freq e4000_set_bw e4000_set_gain e4000_set_if_gain
      e4000_set_gain_mode
  e4000_tuner corrected = record {
    init = some (e4000_init corrected);
    exit = some e4000_exit;
    set_freq = some e4000_set_freq;
    set_bw = some e4000_set_bw;
    set_gain = some e4000_set_gain;
    set_if_gain = some e4000_set_if_gain;
    set_gain_mode = some e4000_set_gain_mode;
  }
