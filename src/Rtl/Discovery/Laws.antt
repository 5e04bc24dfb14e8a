-- ===== src/Rtl/Discovery/Laws.antt =====
-- Which device an index names.
use rtlsdrwrapper.Base.{ℕ, zero, suc, ◌+◌, ◌-◌, ◌≤◌, ◌≡◌, refl, ap, ◌∙◌, ◌⊎◌, inl, inr, arith}
use rtlsdrwrapper.Base.{List, [], ◌∷◌, length, Option, none, some, true, false, ◌==◌, Option-cases}
use rtlsdrwrapper.Base.Int.{ℤ}
use rtlsdrwrapper.Base.Int.{is_negative}
use rtlsdrwrapper.Rtl.Discovery.{
  KnownDevice, UsbDevice, Listing, find_known, count_from, get_device_count, name_loop, name_of,
  get_device_name, read_serial, strings_loop, get_device_usb_strings,
}

-- The known devices of a list, in order.
abbrev pub known_before :
    UsbDevice → Option KnownDevice → List (UsbDevice × KnownDevice) → List (UsbDevice × KnownDevice)
known_before d none rest = rest
known_before d (some k) rest = (d, k) ∷ rest

abbrev pub all_known : List UsbDevice → List (UsbDevice × KnownDevice)
all_known [] = []
all_known (d ∷ ds) = known_before d (find_known d) (all_known ds)

abbrev pub nth : {A : Type 0} → List A → ℕ → Option A
nth [] n = none
nth (x ∷ xs) zero = some x
nth (x ∷ xs) (suc n) = nth xs n

-- The last device of the list, where it is known; `device` for an empty list.
abbrev pub last_known : List UsbDevice → Option KnownDevice → Option KnownDevice
last_known [] device = device
last_known (d ∷ ds) device = last_known ds (find_known d)

abbrev pub known_of : Option (UsbDevice × KnownDevice) → Option KnownDevice → Option KnownDevice
known_of none other = other
known_of (some (d, k)) other = some k

abbrev pub serial_of : Option (UsbDevice × KnownDevice) → ℤ → ℤ × Option (List ℕ)
serial_of none r = (r, none)
serial_of (some (d, k)) r = read_serial d

count_from_lem : (ds : List UsbDevice) (n : ℕ) → count_from ds n ≡ n + length (all_known ds)
unfolding count_from
count_from_lem [] n = omega arith
count_from_lem (d ∷ ds) n = elim (Option-cases (find_known d)) [
  | inl e ↦ rw e (count_from_lem ds n)
  | inr (k, e) ↦ rw e (omega (arith, count_from_lem ds (n + 1)))
]

-- How far an index is from the count: at it, or one farther than from the next count.
distance :
    (index count : ℕ)
    → count ≤ index
    → (((index == count) ≡ true) × (index - count ≡ 0))
      ⊎ (((index == count) ≡ false)
          × (index - count ≡ suc (index - (count + 1)))
          × (count + 1 ≤ index))
distance index count h = ground arith

name_loop_lem :
    (index : ℕ) (ds : List UsbDevice) (count : ℕ) (device : Option KnownDevice)
    → count ≤ index
    → name_loop index ds count device
      ≡ known_of (nth (all_known ds) (index - count)) (last_known ds device)
unfolding name_loop
name_loop_lem index [] count device h = refl
name_loop_lem index (d ∷ ds) count device h = elim (Option-cases (find_known d)) [
  | inl e ↦ rw e (name_loop_lem index ds count none h)
  | inr (k, e) ↦ elim (distance index count h) [
    | inl (here, none_before) ↦ rw (e, here, none_before) refl
    | inr (away, far, le) ↦ rw (e, away, far) (name_loop_lem index ds (count + 1) (some k) le)
  ]
]

strings_loop_lem :
    (index : ℕ) (ds : List UsbDevice) (count : ℕ) (r : ℤ)
    → count ≤ index
    → strings_loop index ds count r ≡ serial_of (nth (all_known ds) (index - count)) r
unfolding strings_loop
strings_loop_lem index [] count r h = refl
strings_loop_lem index (d ∷ ds) count r h = elim (Option-cases (find_known d)) [
  | inl e ↦ rw e (strings_loop_lem index ds count r h)
  | inr (k, e) ↦ elim (distance index count h) [
    | inl (here, none_before) ↦ rw (e, here, none_before) refl
    | inr (away, far, le) ↦ rw (e, away, far) (strings_loop_lem index ds (count + 1) r le)
  ]
]

-- Where `libusb_init` does not fail, the number of devices is that of the known ones on the list, in its
-- order; an index names the known device at that place by name and by serial number; for an index that
-- is too large, the name is that of the last device on the list if it is known and empty otherwise, and
-- reading the strings returns the result of `libusb_init` without strings.
pub device_index :
    (listing : Listing) (index : ℕ)
    → is_negative listing.init_result ≡ false
    → (let at = nth (all_known listing.devices) index in
        (get_device_count listing ≡ length (all_known listing.devices))
        × (get_device_name listing index ≡ name_of (known_of at (last_known listing.devices none)))
        × (get_device_usb_strings listing index ≡ serial_of at listing.init_result))
unfolding get_device_count get_device_name get_device_usb_strings
device_index listing index fine = rw fine (
  count_from_lem listing.devices 0 ∙ omega arith,
  ap name_of (
      name_loop_lem index listing.devices 0 none (omega arith)
      ∙ ap (λ n. known_of (nth (all_known listing.devices) n) (last_known listing.devices none))
          whole),
  strings_loop_lem index listing.devices 0 listing.init_result (omega arith)
      ∙ ap (λ n. serial_of (nth (all_known listing.devices) n) listing.init_result) whole,
)
  where
    whole : index - 0 ≡ index
    whole = omega arith
