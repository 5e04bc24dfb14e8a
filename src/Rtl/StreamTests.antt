-- ===== src/Rtl/StreamTests.antt =====
-- A device list, a USB interface with a tuner, a stream, and instances of their laws.
use rtlsdrwrapper.Base.{
  ℕ, zero, suc, ◌≤◌, ◌≡◌, ◌⊎◌, ◌≢◌, refl, arith, All, List, [], ◌∷◌, length, replicate,
}
use rtlsdrwrapper.Base.{Option, none, some, Bool, true, false, ◌==◌, if◌then◌else◌}
use rtlsdrwrapper.Base.Int.{ℤ, pos, negsuc}
use rtlsdrwrapper.E4k.State.{PllParams, vhf2}
use rtlsdrwrapper.R82xx.Shadow.Coherent.{HasRegisters, written}
use rtlsdrwrapper.Rtl.Usb.{Usb}
use rtlsdrwrapper.Rtl.Device.{Device, e4000}
use rtlsdrwrapper.Rtl.Fir.{fir_default}
use rtlsdrwrapper.Rtl.Tuning.{get_tuner_gains}
use rtlsdrwrapper.Rtl.Dongle.{dongle_bus}
use rtlsdrwrapper.Rtl.Dongle.Registers.{HasTuner, dongle_bus-HasRegisters}
use rtlsdrwrapper.Rtl.E4000.{Chips, e4000_set_gain}
use rtlsdrwrapper.Rtl.E4000.Gains.{Decided, e4000_set_gain-Decided, e4000_gains_taken}
use rtlsdrwrapper.Rtl.Stream.{
  Stream, AsyncStatus, inactive, canceling, running, completed, error, cancelled, Event,
  transfer_ends, user_cancels, handle_events, cancel_async,
}
use rtlsdrwrapper.Rtl.Stream.Order.{view, promised_all, handle_events-promised}
use rtlsdrwrapper.Rtl.Stream.Loop.{
  Round, Local, World, event_loop, closed, read_async, needs_cancel, status_of,
}
use rtlsdrwrapper.Rtl.Stream.Release.{
  OnSome, Released, Stopped, read_async-Released, event_loop-Stopped, event_loop-stuck,
}
use rtlsdrwrapper.Rtl.Discovery.{
  UsbDevice, Listing, find_known, get_device_count, get_device_name, get_device_usb_strings,
  name_of,
}
use rtlsdrwrapper.Rtl.Discovery.{get_index_by_serial}
use rtlsdrwrapper.Rtl.Discovery.Serial.{first_with, get_index_by_serial_lem}
use rtlsdrwrapper.Rtl.Discovery.Laws.{all_known, nth, known_of, serial_of, last_known, device_index}

-- A USB interface with registers of a tuner behind its I2C block, index 0x610.
abbrev store : ℕ → List ℕ → (ℕ → ℕ) → (ℕ → ℕ)
store index [] f = f
store index (reg ∷ val) f = if index == 0x610 then written f reg val else f

abbrev tuner_usb : Usb (ℕ → ℕ)
tuner_usb = record {
  ctrl_out = λ value index bytes f. (pos (length bytes), store index bytes f);
  ctrl_in = λ value index len f. (pos len, replicate len 0, f);
}

sys_write_keeps : (bytes : List ℕ) (f : ℕ → ℕ) (j : ℕ) → store 0x210 bytes f j ≡ f j
sys_write_keeps [] f j = refl
sys_write_keeps (reg ∷ val) f j = refl

count_le : (n : ℕ) (bytes : List ℕ) → ◌≡◌ {A = ℤ} (pos (length bytes)) (pos n) → n ≤ length bytes
count_le n bytes e = ground arith

tuner_usb-HasTuner : (addr : ℕ) → HasTuner tuner_usb addr
tuner_usb-HasTuner addr = record {
  reg_of = λ f. f;
  count_law = λ value index n bytes f e. count_le n bytes e;
  store_law = λ reg val f e j. refl;
  read_law = λ len f j. refl;
  sys_out_law = λ value bytes f j. sys_write_keeps bytes f j;
  sys_in_law = λ value len f j. refl;
}

dongle_bus-HasRegisters_example : HasRegisters (dongle_bus tuner_usb (0 ∷ 0 ∷ [])) 0x34
dongle_bus-HasRegisters_example =
    dongle_bus-HasRegisters tuner_usb (0 ∷ 0 ∷ []) 0x34 (tuner_usb-HasTuner 0x34)

abbrev no_params : PllParams
no_params = record {
  fosc = 0;
  intended_flo = 0;
  flo = 0;
  x = 0;
  z = 0;
  r = 2;
  r_idx = 0;
  threephase = false;
}

abbrev e4000_device : Device (Chips (ℕ → ℕ))
e4000_device = record {
  devh = record {
    dongle = record { handle = λ j. 0; manufact = []; product = [] };
    i2c_addr = 0xc8;
    band = vhf2;
    vco = no_params;
  };
  rate = 2048000;
  rtl_xtal = 28800000;
  fir = fir_default;
  direct_sampling = pos 0;
  tuner_type = e4000;
  tun_xtal = 28800000;
  freq = 100000000;
  bw = 0;
  offs_freq = 0;
  corr = pos 0;
  gain = pos 0;
  e4k_fosc = 28800000;
  r82xx_xtal = 28800000;
}

e4000_set_gain-Decided_example :
    Decided e4000_device (e4000_set_gain tuner_usb [] (pos 341) e4000_device)
e4000_set_gain-Decided_example = e4000_set_gain-Decided tuner_usb [] (pos 341) e4000_device

e4000_gains_taken_example :
    All
      (λ gain. (s : Device (Chips (ℕ → ℕ))) → (e4000_set_gain tuner_usb [] gain s).0 ≡ pos 0)
      (get_tuner_gains e4000)
e4000_gains_taken_example = e4000_gains_taken tuner_usb []

-- A stream of two transfers.
abbrev two_transfers : Stream
two_transfers = record {
  xfer_buf_num = 2;
  xfer_buf_len = 512;
  xfer = some (some completed ∷ some completed ∷ []);
  xfer_buf = some (true ∷ true ∷ []);
  has_cb = true;
  async_status = running;
  async_cancel = false;
  dev_lost = false;
  xfer_errors = 0;
  calls = [];
}

abbrev some_events : List Event
some_events =
    transfer_ends 0 completed (1 ∷ 2 ∷ [])
    ∷ transfer_ends 1 error []
    ∷ transfer_ends 0 completed (3 ∷ [])
    ∷ transfer_ends 1 error []
    ∷ transfer_ends 0 error []
    ∷ []

handle_events-promised_example :
    view (handle_events some_events two_transfers) ≡ promised_all 2 some_events (view two_transfers)
handle_events-promised_example = handle_events-promised some_events two_transfers refl (omega arith)

abbrev idle : Stream
idle = record two_transfers { xfer = none; xfer_buf = none; async_status = inactive }

abbrev quiet : Round
quiet = record {
  result = pos 0;
  events = [];
  cancel_result = λ i. pos 0;
  cancel_events = λ i. [];
  last_events = [];
}

abbrev user_stops : Round
user_stops = record quiet { events = transfer_ends 0 completed (7 ∷ []) ∷ user_cancels ∷ [] }

abbrev all_cancelled : Round
all_cancelled = record quiet {
  events = transfer_ends 0 cancelled [] ∷ transfer_ends 1 cancelled [] ∷ [];
}

abbrev broken : Round
broken = record quiet { result = negsuc 0 }

abbrev world : List Round → World
world rounds = record {
  transfers = λ i. true;
  memory = λ i. true;
  submitted = λ i. pos 0;
  rounds = rounds;
}

read_async-Released_example :
    ((idle.async_status ≢ inactive)
      × (read_async (world (quiet ∷ user_stops ∷ all_cancelled ∷ [])) true 2 512 idle
          ≡ some (negsuc 1, idle)))
    ⊎ ((idle.async_status ≡ inactive)
        × OnSome Released
            (read_async (world (quiet ∷ user_stops ∷ all_cancelled ∷ [])) true 2 512 idle))
read_async-Released_example =
    read_async-Released (world (quiet ∷ user_stops ∷ all_cancelled ∷ [])) true 2 512 idle

-- What a call that the user stops, and one that libusb breaks off after that, come to.
abbrev outcome : Option (ℤ × Stream) → Option (ℤ × AsyncStatus)
outcome none = none
outcome (some (r, s)) = some (r, s.async_status)

stopped_run :
    outcome (read_async (world (quiet ∷ user_stops ∷ all_cancelled ∷ [])) true 2 512 idle)
    ≡ some (pos 0, inactive)
unfolding read_async
stopped_run = refl

broken_run :
    outcome (read_async (world (quiet ∷ user_stops ∷ broken ∷ [])) true 2 512 idle)
    ≡ some (negsuc 0, canceling)
unfolding read_async
broken_run = refl

abbrev being_cancelled : Local
being_cancelled = record {
  next_status = canceling;
  r = pos 0;
  dev = record two_transfers { async_status = canceling; async_cancel = true };
}

none_left :
    (j : ℕ)
    → needs_cancel (status_of (handle_events all_cancelled.events being_cancelled.dev) j) ≡ false
unfolding handle_events
none_left zero = refl
none_left (suc zero) = refl
none_left (suc (suc j)) = refl

event_loop-Stopped_example :
    (res : ℤ × Stream) × (closed (event_loop (all_cancelled ∷ []) being_cancelled) ≡ some res)
    × Stopped res
event_loop-Stopped_example = event_loop-Stopped all_cancelled [] being_cancelled refl refl none_left

event_loop-stuck_example :
    (s : Stream) × (closed (event_loop (broken ∷ []) being_cancelled) ≡ some (negsuc 0, s))
    × (s.xfer ≡ none)
    × (cancel_async s ≡ (negsuc 1, s))
    × ((w : World) (has_cb : Bool) (num len : ℕ)
        → read_async w has_cb num len s ≡ some (negsuc 1, s))
event_loop-stuck_example = event_loop-stuck broken [] being_cancelled refl refl refl refl

-- A known device, one that is not, and one more that is known.
abbrev usb_device : ℕ → ℕ → List ℕ → UsbDevice
usb_device vendor product serial = record {
  id_vendor = vendor;
  id_product = product;
  open_result = pos 0;
  descriptor_result = pos 0;
  serial = serial;
}

abbrev some_devices : Listing
some_devices = record {
  init_result = pos 0;
  devices =
      usb_device 0x0bda 0x2838 (49 ∷ [])
      ∷ usb_device 0x1234 0x5678 []
      ∷ usb_device 0x1f4d 0xd286 (50 ∷ [])
      ∷ [];
}

device_index_example :
    (let at = nth (all_known some_devices.devices) 2 in
      (get_device_count some_devices ≡ length (all_known some_devices.devices))
      × (get_device_name some_devices 2
          ≡ name_of (known_of at (last_known some_devices.devices none)))
      × (get_device_usb_strings some_devices 2 ≡ serial_of at (pos 0)))
device_index_example = device_index some_devices 2 refl

-- An index that is too large still gives a name, and strings without an error.
too_large :
    (get_device_name some_devices 7 ≡ "MyGica TD312")
    × (get_device_usb_strings some_devices 7 ≡ (pos 0, none))
unfolding get_device_name get_device_usb_strings find_known
too_large = (refl, refl)

get_index_by_serial_lem_example : get_index_by_serial some_devices (9 ∷ []) (50 ∷ []) ≡ (
    if length (all_known some_devices.devices) == 0
    then negsuc 1
    else first_with (50 ∷ []) (all_known some_devices.devices) 0)
get_index_by_serial_lem_example = get_index_by_serial_lem some_devices (9 ∷ []) (50 ∷ []) refl
