-- ===== src/E4k/Init.antt =====
-- Standby and initialisation of tuner_e4k.c. Nothing stops at an error.
use rtlsdrwrapper.Base.{Bool, true, false, if◌then◌else◌}
use rtlsdrwrapper.Base.Int.{ℤ, pos}
use rtlsdrwrapper.R82xx.State.{Bus}
use rtlsdrwrapper.E4k.State.{Command, ◌>>=◌, ◌>>◌, pure}
use rtlsdrwrapper.E4k.Regs.{reg_write, reg_read, reg_set_mask}
use rtlsdrwrapper.E4k.Gain.{enable_manual_gain, if_gain_set}
use rtlsdrwrapper.E4k.Filter.{mix, chan, rc, if_filter_bw_set, if_filter_chan_enable}

module _ {S : Type 0} (b : Bus S) where
  unfoldable pub standby : Bool → Command S ℤ
  unfolding reg_set_mask ◌>>◌
  standby enable = do reg_set_mask b 0x00 0x02 (if enable then 0 else 0x02); pure (pos 0)

  pub magic_init : Command S ℤ
  unfolding reg_write ◌>>◌
  magic_init = do
    reg_write b 0x7e 0x01
    reg_write b 0x7f 0xfe
    reg_write b 0x82 0x00
    reg_write b 0x86 0x50
    reg_write b 0x87 0x20
    reg_write b 0x88 0x01
    reg_write b 0x9f 0x7f
    reg_write b 0xa0 0x07
    pure (pos 0)

  set_up_gain : Command S ℤ
  unfolding reg_write reg_set_mask enable_manual_gain if_gain_set ◌>>◌
  set_up_gain = do
    reg_write b 0x1d 0x10
    reg_write b 0x1e 0x04
    reg_write b 0x1f 0x1a
    reg_set_mask b 0x1a 0xf 0
    reg_set_mask b 0x20 1 0
    enable_manual_gain b false
    if_gain_set b 1 (pos 6)
    if_gain_set b 2 (pos 0)
    if_gain_set b 3 (pos 0)
    if_gain_set b 4 (pos 0)
    if_gain_set b 5 (pos 9)
    if_gain_set b 6 (pos 9)

  set_up_filters : Command S ℤ
  unfolding if_filter_bw_set if_filter_chan_enable reg_set_mask ◌>>◌
  set_up_filters = do
    if_filter_bw_set b mix 1900000
    if_filter_bw_set b rc 1000000
    if_filter_bw_set b chan 2150000
    if_filter_chan_enable b true
    reg_set_mask b 0x2d 0x03 0
    reg_set_mask b 0x70 0x03 0
    reg_set_mask b 0x71 0x03 0
    pure (pos 0)

  unfoldable pub init : Command S ℤ
  unfolding reg_read reg_write magic_init set_up_gain set_up_filters ◌>>=◌ ◌>>◌
  init = do
    reg_read b 0
    reg_write b 0x00 0x07
    reg_write b 0x05 0x00
    reg_write b 0x06 0x00
    reg_write b 0x7a 0x96
    magic_init
    set_up_gain
    set_up_filters
