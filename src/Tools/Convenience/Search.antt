-- ===== src/Tools/Convenience/Search.antt =====
-- What `verbose_device_search` finds where all devices can be read.
use rtlsdrwrapper.Base.{ℕ, ◌+◌, ◌≡◌, Option, none, some}
use rtlsdrwrapper.Base.{List, [], ◌∷◌, Bool, if◌then◌else◌}
use rtlsdrwrapper.Base.Int.{ℤ, pos, negsuc}
use rtlsdrwrapper.Rtl.Dongle.{strings_equal}
use rtlsdrwrapper.Rtl.Discovery.{KnownDevice, UsbDevice, read_serial}
use rtlsdrwrapper.Tools.Convenience.{is_prefix, is_suffix}

-- The first of the devices whose serial number matches, counted from `i`.
abbrev pub first_match : (List ℕ → Bool) → List (UsbDevice × KnownDevice) → ℕ → Option ℕ
first_match matches [] i = none
first_match matches ((d, k) ∷ rest) i =
    if matches d.serial then some i else first_match matches rest (i + 1)

-- The device can be opened and its strings can be read.
abbrev pub Readable : UsbDevice × KnownDevice → Type 0
Readable (d, k) = read_serial d ≡ (pos 0, some d.serial)

abbrev or_else : Option ℕ → ℤ → ℤ
or_else none r = r
or_else (some i) r = pos i

-- The serial number itself, else one that the argument begins, else one that it ends; -1 for none.
abbrev pub by_serial : List ℕ → List (UsbDevice × KnownDevice) → ℤ
by_serial s devices = or_else (first_match (λ serial. strings_equal s serial) devices 0) (
    or_else (first_match (is_prefix s) devices 0)
      (or_else (first_match (is_suffix s) devices 0) (negsuc 0)))
