-- ===== src/Tools/Image.antt =====
-- Sources/CRTLSDR/src/rtl_eeprom.c: the EEPROM's contents, read into a configuration and made from
-- one. The messages on stderr are left out.
pub mod Strings
pub mod Room
pub mod Laws
pub mod Defaults
use rtlsdrwrapper.Base.{
  ℕ, zero, suc, ◌+◌, ◌-◌, ◌*◌, ◌/◌, ◌%◌, ◌^◌, bit_and, bit_or, List, [], ◌∷◌, ◌++◌, Option, none,
  some,
}
use rtlsdrwrapper.Base.Options.{◌>>=◌}
use rtlsdrwrapper.Base.{
  Bool, true, false, not, ltb, leb, ◌==◌, if◌then◌else◌, get_or, set, blit, length, u8, u16, ◌<<<◌,
  ◌>>>◌,
}

-- The three arrays hold 256 characters each. The three flags are 0 or 1.
pub record Config : Type 0 where
  pub vendor_id : ℕ
  pub product_id : ℕ
  pub manufacturer : List ℕ
  pub product : List ℕ
  pub serial : List ℕ
  pub have_serial : Bool
  pub enable_ir : Bool
  pub remote_wakeup : Bool

-- The string in an array: the characters before the first 0.
abbrev pub c_string : List ℕ → List ℕ
c_string [] = []
c_string (c ∷ str) = if c == 0 then [] else c ∷ c_string str

-- `strcpy(str, s)`
abbrev pub strcpy : List ℕ → List ℕ → List ℕ
strcpy str s = blit str 0 (s ++ (0 ∷ []))

abbrev pub str_offset : ℕ
str_offset = 9

-- The characters at `k`, `k + 2`, ...; `none` is a read behind the end of `dat`.
unfoldable pub get_chars : ℕ → ℕ → List ℕ → Option (List ℕ)
get_chars zero k dat = some []
get_chars (suc n) k dat = do
  chars ← get_chars n (k + 2) dat
  if ltb k (length dat) then some (get_or dat k 0 ∷ chars) else none

-- The loop runs for i = 2, 4, ... below `len`. With the position behind the descriptor.
unfoldable pub get_string_descriptor : ℕ → List ℕ → List ℕ → Option (ℕ × List ℕ)
unfolding get_chars
get_string_descriptor pos dat str =
    let rounds = (get_or dat pos 0 - 1) / 2 in
    do
      chars ← get_chars rounds (pos + 2) dat
      if ltb pos (length dat) then some (pos + 2 + 2 * rounds, strcpy str chars) else none

-- The loop of `set_string_descriptor`, and `j` behind it; `none` is the return of -1.
unfoldable pub set_chars : ℕ → ℕ → List ℕ → List ℕ → Option ℕ × List ℕ
set_chars pos j [] dat = (some j, dat)
set_chars pos j (c ∷ str) dat =
    let rest = set_chars pos (j + 2) str (set (set dat (pos + j) c) (pos + j + 1) 0) in
    if c == 0 then (some j, dat) else if leb 78 (pos + j) then (none, dat) else rest

-- A position of `none` is -1.
abbrev pub close_string : ℕ → Option ℕ × List ℕ → Option ℕ × List ℕ
close_string pos (none, dat) = (none, dat)
close_string pos (some j, dat) = (some (pos + j), set dat pos (u8 j))

unfoldable pub set_string_descriptor : Option ℕ → List ℕ → List ℕ → Option ℕ × List ℕ
unfolding set_chars
set_string_descriptor none dat str = (none, dat)
set_string_descriptor (some pos) dat str =
    close_string pos (set_chars pos 2 str (set dat (pos + 1) 3))

unfoldable pub parse_eeprom_to_conf : Config → List ℕ → Option Config
parse_eeprom_to_conf conf dat = do
  manufacturer ← get_string_descriptor str_offset dat conf.manufacturer
  product ← get_string_descriptor manufacturer.0 dat conf.product
  serial ← get_string_descriptor product.0 dat conf.serial
  some (record {
    vendor_id = bit_or (get_or dat 2 0) (get_or dat 3 0 <<< 8);
    product_id = bit_or (get_or dat 4 0) (get_or dat 5 0 <<< 8);
    manufacturer = manufacturer.1;
    product = product.1;
    serial = serial.1;
    have_serial = get_or dat 6 0 == 0xa5;
    enable_ir = not (bit_and (get_or dat 7 0) 2 == 0);
    remote_wakeup = not (bit_and (get_or dat 7 0) 1 == 0);
  })

abbrev pub header : Config → List ℕ
header conf =
    0x28
    ∷ 0x32
    ∷ bit_and conf.vendor_id 0xff
    ∷ bit_and (conf.vendor_id >>> 8) 0xff
    ∷ bit_and conf.product_id 0xff
    ∷ bit_and (conf.product_id >>> 8) 0xff
    ∷ (if conf.have_serial then 0xa5 else 0)
    ∷ bit_or (bit_or 0x14 (if conf.remote_wakeup then 1 else 0)) (if conf.enable_ir then 2 else 0)
    ∷ 2
    ∷ []

-- The first component is the return value, `none` for -1.
unfoldable pub gen_eeprom_from_conf : Config → List ℕ → Option ℕ × List ℕ
gen_eeprom_from_conf conf dat0 =
    let (pos1, dat1) =
      set_string_descriptor (some str_offset) (blit dat0 0 (header conf)) conf.manufacturer in
    let (pos2, dat2) = set_string_descriptor pos1 dat1 conf.product in
    let (pos3, dat3) = set_string_descriptor pos2 dat2 conf.serial in (pos3, set dat3 78 0)
