-- ===== src/Rtl/Discovery/Serial.antt =====
-- The search for a device by its serial number.
use rtlsdrwrapper.Base.{ℕ, suc, ◌+◌, ◌≡◌, refl, ap, ◌∙◌, arith}
use rtlsdrwrapper.Base.{
  List, [], ◌∷◌, length, Bool, false, ◌&&◌, not, ◌==◌, if◌then◌else◌, Bool-cases, inl, inr,
}
use rtlsdrwrapper.Base.Int.{ℤ, pos, negsuc, is_negative}
use rtlsdrwrapper.Rtl.Device.{is_zero}
use rtlsdrwrapper.Rtl.Dongle.{strings_equal}
use rtlsdrwrapper.Rtl.Discovery.{
  KnownDevice, UsbDevice, Listing, read_serial, get_device_usb_strings, stored, serial_loop,
  get_index_by_serial,
}
use rtlsdrwrapper.Rtl.Discovery.Laws.{all_known, nth, serial_of, device_index}

-- The device can be opened and read, and has the serial number.
abbrev pub has_serial : List ℕ → UsbDevice → Bool
has_serial serial d =
    is_zero d.open_result
    && (not (is_negative d.descriptor_result) && strings_equal serial d.serial)

-- The first of the known devices with the serial number, counted from `i`; -3 where there is none.
abbrev pub first_with : List ℕ → List (UsbDevice × KnownDevice) → ℕ → ℤ
first_with serial [] i = negsuc 2
first_with serial ((d, k) ∷ rest) i =
    if has_serial serial d then pos i else first_with serial rest (i + 1)

-- The test of a round, whatever the buffer holds.
round_test :
    (serial str : List ℕ) (d : UsbDevice)
    → (is_zero (read_serial d).0 && strings_equal serial (stored (read_serial d).1 str))
      ≡ has_serial serial d
unfolding read_serial
round_test serial str d = elim (Bool-cases (is_zero d.open_result)) [
  | inl opened ↦ elim (Bool-cases (is_negative d.descriptor_result)) [
    | inl failed ↦ rw (opened, failed) refl
    | inr fine ↦ rw (opened, fine) refl
  ]
  | inr failed ↦ rw (failed, failed) refl
]

add_zero : (i : ℕ) → i ≡ i + 0
add_zero i = omega arith

add_suc : (i j : ℕ) → i + 1 + j ≡ i + suc j
add_suc i j = omega arith

zero_add : (j : ℕ) → 0 + j ≡ j
zero_add j = omega arith

serial_loop_lem :
    (listing : Listing) (serial : List ℕ) (rest : List (UsbDevice × KnownDevice)) (i : ℕ)
    (str : List ℕ)
    → is_negative listing.init_result ≡ false
    → ((j : ℕ) → nth (all_known listing.devices) (i + j) ≡ nth rest j)
    → serial_loop listing serial (length rest) i str ≡ first_with serial rest i
unfolding serial_loop
serial_loop_lem listing serial [] i str fine at = refl
serial_loop_lem listing serial ((d, k) ∷ rest) i str fine at =
    rw (got, round_test serial str d)
      (ap (λ r. if has_serial serial d then pos i else r)
        (serial_loop_lem listing serial rest (i + 1) (stored (read_serial d).1 str) fine next))
  where
    got : get_device_usb_strings listing i ≡ read_serial d
    got =
        (device_index listing i fine).2
        ∙ ap (λ o. serial_of o listing.init_result)
            (ap (nth (all_known listing.devices)) (add_zero i) ∙ at 0)

    next : (j : ℕ) → nth (all_known listing.devices) (i + 1 + j) ≡ nth rest j
    next j = ap (nth (all_known listing.devices)) (add_suc i j) ∙ at (suc j)

-- Where `libusb_init` does not fail, the search returns -2 if no known device is on the bus, and else the
-- index of the first one that can be opened and read and has the serial number, or -3 if none does,
-- whatever the buffer for the serial numbers holds before.
pub get_index_by_serial_lem :
    (listing : Listing) (stack serial : List ℕ)
    → is_negative listing.init_result ≡ false
    → get_index_by_serial listing stack serial ≡ (
        if length (all_known listing.devices) == 0
        then negsuc 1
        else first_with serial (all_known listing.devices) 0)
unfolding get_index_by_serial
get_index_by_serial_lem listing stack serial fine = rw (device_index listing 0 fine).0 (
    ap (λ r. if length (all_known listing.devices) == 0 then negsuc 1 else r)
      (serial_loop_lem listing serial (all_known listing.devices) 0 stack fine
        (λ j. ap (nth (all_known listing.devices)) (zero_add j))))
