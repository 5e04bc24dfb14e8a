-- ===== src/Rtl/Discovery.antt =====
-- Finding dongles of librtlsdr.c: the table of known devices, their number, names and serial numbers.
pub mod Laws
pub mod Serial
use Prim.Native.String.{String}
use rtlsdrwrapper.Base.{
  ℕ, zero, suc, ◌+◌, List, [], ◌∷◌, Option, none, some, Bool, true, false, ◌&&◌, ◌==◌,
  if◌then◌else◌,
}
use rtlsdrwrapper.Base.Int.{ℤ, pos, negsuc}
use rtlsdrwrapper.Base.Int.{is_negative}
use rtlsdrwrapper.Rtl.Device.{is_zero}
use rtlsdrwrapper.Rtl.Dongle.{strings_equal}

-- `rtlsdr_dongle_t`
pub record KnownDevice : Type 0 where
  pub vid : ℕ
  pub pid : ℕ
  pub name : String

abbrev pub known : ℕ → ℕ → String → KnownDevice
known vid pid name = record { vid = vid; pid = pid; name = name }

abbrev pub known_devices : List KnownDevice
known_devices =
    known 0x0bda 0x2832 "Generic RTL2832U"
    ∷ known 0x0bda 0x2838 "Generic RTL2832U OEM"
    ∷ known 0x0413 0x6680 "DigitalNow Quad DVB-T PCI-E card"
    ∷ known 0x0413 0x6f0f "Leadtek WinFast DTV Dongle mini D"
    ∷ known 0x0458 0x707f "Genius TVGo DVB-T03 USB dongle (Ver. B)"
    ∷ known 0x0ccd 0x00a9 "Terratec Cinergy T Stick Black (rev 1)"
    ∷ known 0x0ccd 0x00b3 "Terratec NOXON DAB/DAB+ USB dongle (rev 1)"
    ∷ known 0x0ccd 0x00b4 "Terratec Deutschlandradio DAB Stick"
    ∷ known 0x0ccd 0x00b5 "Terratec NOXON DAB Stick - Radio Energy"
    ∷ known 0x0ccd 0x00b7 "Terratec Media Broadcast DAB Stick"
    ∷ known 0x0ccd 0x00b8 "Terratec BR DAB Stick"
    ∷ known 0x0ccd 0x00b9 "Terratec WDR DAB Stick"
    ∷ known 0x0ccd 0x00c0 "Terratec MuellerVerlag DAB Stick"
    ∷ known 0x0ccd 0x00c6 "Terratec Fraunhofer DAB Stick"
    ∷ known 0x0ccd 0x00d3 "Terratec Cinergy T Stick RC (Rev.3)"
    ∷ known 0x0ccd 0x00d7 "Terratec T Stick PLUS"
    ∷ known 0x0ccd 0x00e0 "Terratec NOXON DAB/DAB+ USB dongle (rev 2)"
    ∷ known 0x1554 0x5020 "PixelView PV-DT235U(RN)"
    ∷ known 0x15f4 0x0131 "Astrometa DVB-T/DVB-T2"
    ∷ known 0x15f4 0x0133 "HanfTek DAB+FM+DVB-T"
    ∷ known 0x185b 0x0620 "Compro Videomate U620F"
    ∷ known 0x185b 0x0650 "Compro Videomate U650F"
    ∷ known 0x185b 0x0680 "Compro Videomate U680F"
    ∷ known 0x1b80 0xd393 "GIGABYTE GT-U7300"
    ∷ known 0x1b80 0xd394 "DIKOM USB-DVBT HD"
    ∷ known 0x1b80 0xd395 "Peak 102569AGPK"
    ∷ known 0x1b80 0xd397 "KWorld KW-UB450-T USB DVB-T Pico TV"
    ∷ known 0x1b80 0xd398 "Zaapa ZT-MINDVBZP"
    ∷ known 0x1b80 0xd39d "SVEON STV20 DVB-T USB & FM"
    ∷ known 0x1b80 0xd3a4 "Twintech UT-40"
    ∷ known 0x1b80 0xd3a8 "ASUS U3100MINI_PLUS_V2"
    ∷ known 0x1b80 0xd3af "SVEON STV27 DVB-T USB & FM"
    ∷ known 0x1b80 0xd3b0 "SVEON STV21 DVB-T USB & FM"
    ∷ known 0x1d19 0x1101 "Dexatek DK DVB-T Dongle (Logilink VG0002A)"
    ∷ known 0x1d19 0x1102 "Dexatek DK DVB-T Dongle (MSI DigiVox mini II V3.0)"
    ∷ known 0x1d19 0x1103 "Dexatek Technology Ltd. DK 5217 DVB-T Dongle"
    ∷ known 0x1d19 0x1104 "MSI DigiVox Micro HD"
    ∷ known 0x1f4d 0xa803 "Sweex DVB-T USB"
    ∷ known 0x1f4d 0xb803 "GTek T803"
    ∷ known 0x1f4d 0xc803 "Lifeview LV5TDeluxe"
    ∷ known 0x1f4d 0xd286 "MyGica TD312"
    ∷ known 0x1f4d 0xd803 "PROlectrix DV107669"
    ∷ []

-- The loop over the table.
pub find_in : List KnownDevice → ℕ → ℕ → Option KnownDevice
find_in [] vid pid = none
find_in (k ∷ ks) vid pid = if k.vid == vid && k.pid == pid then some k else find_in ks vid pid

unfoldable pub find_known_device : ℕ → ℕ → Option KnownDevice
unfolding find_in
find_known_device vid pid = find_in known_devices vid pid

-- A device of libusb's list: its descriptor, what `libusb_open` and `libusb_get_device_descriptor` return
-- for it, and its serial number, the bytes before the 0.
pub record UsbDevice : Type 0 where
  pub id_vendor : ℕ
  pub id_product : ℕ
  pub open_result : ℤ
  pub descriptor_result : ℤ
  pub serial : List ℕ

-- What libusb gives: the result of `libusb_init`, and its list, which does not change between calls.
pub record Listing : Type 0 where
  pub init_result : ℤ
  pub devices : List UsbDevice

unfoldable pub find_known : UsbDevice → Option KnownDevice
unfolding find_known_device
find_known d = find_known_device d.id_vendor d.id_product

abbrev pub is_some : {A : Type 0} → Option A → Bool
is_some none = false
is_some (some a) = true

-- `device_count` of the first loop, and of the other loops after one more device.
abbrev pub next_count : ℕ → Bool → ℕ
next_count device_count found = if found then device_count + 1 else device_count

unfoldable pub count_from : List UsbDevice → ℕ → ℕ
count_from [] device_count = device_count
count_from (d ∷ ds) device_count = count_from ds (next_count device_count (is_some (find_known d)))

unfoldable pub get_device_count : Listing → ℕ
unfolding count_from
get_device_count listing =
    if is_negative listing.init_result then 0 else count_from listing.devices 0

-- The loop of `rtlsdr_get_device_name`, with `device_count` and `device`.
unfoldable pub name_loop : ℕ → List UsbDevice → ℕ → Option KnownDevice → Option KnownDevice
name_loop index [] device_count device = device
name_loop index (d ∷ ds) device_count device =
    let found = find_known d in
    let rest = name_loop index ds (next_count device_count (is_some found)) found in
    if is_some found && index == device_count then found else rest

abbrev pub name_of : Option KnownDevice → String
name_of none = ""
name_of (some k) = k.name

unfoldable pub get_device_name : Listing → ℕ → String
unfolding name_loop
get_device_name listing index =
    if is_negative listing.init_result then "" else name_of (name_loop index listing.devices 0 none)

-- Opening a device and reading its strings, of which the serial number is kept.
unfoldable pub read_serial : UsbDevice → ℤ × Option (List ℕ)
read_serial d =
    if is_zero d.open_result
    then if is_negative d.descriptor_result then (negsuc 0, none) else (pos 0, some d.serial)
    else (d.open_result, none)

-- The loop of `rtlsdr_get_device_usb_strings`; `r` is what it holds before.
unfoldable pub strings_loop : ℕ → List UsbDevice → ℕ → ℤ → ℤ × Option (List ℕ)
unfolding read_serial
strings_loop index [] device_count r = (r, none)
strings_loop index (d ∷ ds) device_count r =
    let found = is_some (find_known d) in
    let rest = strings_loop index ds (next_count device_count found) r in
    if found && index == device_count then read_serial d else rest

unfoldable pub get_device_usb_strings : Listing → ℕ → ℤ × Option (List ℕ)
unfolding strings_loop
get_device_usb_strings listing index =
    if is_negative listing.init_result
    then (listing.init_result, none)
    else strings_loop index listing.devices 0 listing.init_result

-- The buffer for a serial number after a call.
abbrev pub stored : Option (List ℕ) → List ℕ → List ℕ
stored none str = str
stored (some bytes) str = bytes

-- The loop of `rtlsdr_get_index_by_serial` with the rounds left; `str` is the buffer.
unfoldable pub serial_loop : Listing → List ℕ → ℕ → ℕ → List ℕ → ℤ
unfolding get_device_usb_strings strings_equal
serial_loop listing serial zero i str = negsuc 2
serial_loop listing serial (suc n) i str =
    let (r, got) = get_device_usb_strings listing i in
    let str' = stored got str in
    let rest = serial_loop listing serial n (i + 1) str' in
    if is_zero r && strings_equal serial str' then pos i else rest

-- `stack` is what the buffer holds before. The pointer `serial` is not null.
unfoldable pub get_index_by_serial : Listing → List ℕ → List ℕ → ℤ
unfolding serial_loop get_device_count
get_index_by_serial listing stack serial =
    let cnt = get_device_count listing in
    if cnt == 0 then negsuc 1 else serial_loop listing serial cnt 0 stack
