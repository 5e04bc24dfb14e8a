-- ===== src/Tools/Convenience.antt =====
-- Sources/CRTLSDR/src/convenience/convenience.c: the gain nearest to a target, and the device that
-- an argument names. The messages on stderr are left out.
pub mod Gains
pub mod Search
use rtlsdrwrapper.Base.{ℕ, zero, suc, ◌+◌, ◌-◌, List, [], ◌∷◌, Option, none, some}
use rtlsdrwrapper.Base.{
  Bool, true, false, not, ◌&&◌, ltb, leb, ◌==◌, if◌then◌else◌, length, take, drop, list_eq,
}
use rtlsdrwrapper.Base.Int.{ℤ, pos, negsuc, pos_part, neg_part, ltb_ℤ, leb_ℤ, is_negative}
use rtlsdrwrapper.Rtl.Dongle.{strings_equal}
use rtlsdrwrapper.Rtl.Discovery.{Listing, get_device_count, get_device_usb_strings, stored}

-- `abs(a - b)`
abbrev pub abs_diff : ℤ → ℤ → ℕ
abs_diff a b =
    let x = pos_part a + neg_part b in
    let y = pos_part b + neg_part a in if leb x y then y - x else x - y

-- The loop of `nearest_gain`.
pub nearest_of : ℤ → ℤ → List ℤ → ℤ
nearest_of target nearest [] = nearest
nearest_of target nearest (gain ∷ gains) =
    let err1 = abs_diff target nearest in
    let err2 = abs_diff target gain in
    nearest_of target (if ltb err2 err1 then gain else nearest) gains

abbrev pub nearest_in : ℤ → List ℤ → ℤ
nearest_in target [] = pos 0
nearest_in target (gain ∷ gains) = nearest_of target gain (gain ∷ gains)

-- The device's two calls are `set_mode` for mode 1 and `gains`.
pub nearest_gain : {S : Type 0} → (S → ℤ × S) → (S → List ℤ) → ℤ → S → ℤ × S
unfolding nearest_of
nearest_gain set_mode gains target s =
    let (r, s1) = set_mode s in
    if is_negative r then (r, s1) else (nearest_in target (gains s1), s1)

-- `strncmp(s, serial, strlen(s)) == 0`
abbrev pub is_prefix : List ℕ → List ℕ → Bool
is_prefix [] serial = true
is_prefix (c ∷ s) [] = false
is_prefix (c ∷ s) (d ∷ serial) = (c == d) && is_prefix s serial

-- The same at `serial + offset`, unless `offset` is negative.
abbrev pub is_suffix : List ℕ → List ℕ → Bool
is_suffix s serial =
    leb (length s) (length serial) && is_prefix s (drop (length serial - length s) serial)

-- A loop over the devices that stops at the first match, or goes to the end; with the buffer for
-- serial numbers.
pub search_loop : Listing → (List ℕ → Bool) → ℕ → ℕ → List ℕ → Option ℕ × List ℕ
search_loop listing matches zero i serial = (none, serial)
search_loop listing matches (suc n) i serial =
    let serial' = stored (get_device_usb_strings listing i).1 serial in
    let rest = search_loop listing matches n (i + 1) serial' in
    if matches serial' then (some i, serial') else rest

-- One search, and the next one if it finds nothing.
abbrev pub or_search : Option ℕ × List ℕ → (List ℕ → ℤ) → ℤ
or_search (none, serial) next = next serial
or_search (some i, serial) next = pos i

-- A number that is a device's index, or else the searches.
abbrev pub by_number : Option ℤ → ℕ → ℤ → ℤ
by_number none count by_serial = by_serial
by_number (some device) count by_serial =
    if not (is_negative device) && ltb_ℤ device (pos count) then device else by_serial

-- `number` is what `strtol` makes of the argument where it reads all of it; `stack` is what the
-- buffer holds before. The first loop lists the devices.
pub verbose_device_search : Listing → Option ℤ → List ℕ → List ℕ → ℤ
unfolding search_loop
verbose_device_search listing number s stack =
    let count = get_device_count listing in
    let listed = search_loop listing (λ _. false) count 0 stack in
    if count == 0
    then negsuc 0
    else by_number number count (
        or_search (search_loop listing (λ serial. strings_equal s serial) count 0 listed.1) λ buf.
          or_search (search_loop listing (is_prefix s) count 0 buf)
            λ buf'. or_search (search_loop listing (is_suffix s) count 0 buf') λ _. negsuc 0)
