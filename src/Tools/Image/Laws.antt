-- ===== src/Tools/Image/Laws.antt =====
-- What rtl_eeprom.c makes of a configuration is read back as that configuration.
use rtlsdrwrapper.Base.{
  ℕ, ◌+◌, ◌*◌, ◌/◌, ◌%◌, ◌^◌, ◌<◌, ◌≡◌, refl, ap, ap₂, ◌∙◌, List, none, some, arith, bit_and,
  bit_or,
}
use rtlsdrwrapper.Base.{
  Bool, true, false, not, ◌&&◌, ◌==◌, if◌then◌else◌, get_or, set, blit, length, length-blit,
  get_or-blit, ◌<<<◌, ◌>>>◌,
}
use rtlsdrwrapper.Base.Bits.{bit_and_low, bit_or_fields_below}
use rtlsdrwrapper.Tools.Image.{
  Config, c_string, strcpy, header, parse_eeprom_to_conf, gen_eeprom_from_conf,
}
use rtlsdrwrapper.Tools.Image.Strings.{Agree, Agree-Agree, Agree-set, Holds}
use rtlsdrwrapper.Tools.Image.Room.{has_room, behind, stored_string, set_string_descriptor-behind}

abbrev chars : Config → ℕ × ℕ × ℕ
chars conf = (
  length (c_string conf.manufacturer),
  length (c_string conf.product),
  length (c_string conf.serial),
)

-- The three strings fit before cell 79.
abbrev pub fits : Config → Bool
fits conf =
    let (m, p, s) = chars conf in
    has_room 9 (c_string conf.manufacturer)
    && has_room (11 + 2 * m) (c_string conf.product)
    && has_room (13 + 2 * m + 2 * p) (c_string conf.serial)

-- `conf` read into a structure whose arrays hold other strings before.
abbrev pub read_into : Config → Config → Config
read_into old conf = record conf {
  manufacturer = strcpy old.manufacturer (c_string conf.manufacturer);
  product = strcpy old.product (c_string conf.product);
  serial = strcpy old.serial (c_string conf.serial);
}

-- The call returns the position behind the last string where the strings fit, and -1 otherwise.
pub gen_eeprom_from_conf-result :
    (conf : Config) (dat : List ℕ)
    → (gen_eeprom_from_conf conf dat).0 ≡ (
        if fits conf
        then some (15 + 2 * (chars conf).0 + 2 * (chars conf).1 + 2 * (chars conf).2)
        else none)
unfolding gen_eeprom_from_conf
gen_eeprom_from_conf-result conf dat =
    set_string_descriptor-behind _ _ conf.serial
    ∙ ap (λ o. behind o (c_string conf.serial))
        (set_string_descriptor-behind _ _ conf.product
          ∙ ap (λ o. behind o (c_string conf.product))
              (set_string_descriptor-behind (some 9) (blit dat 0 (header conf)) conf.manufacturer))
    ∙ ground arith

id_bytes : (n : ℕ) → n < 2 ^ 16 → bit_or (bit_and n 0xff) (bit_and (n >>> 8) 0xff <<< 8) ≡ n
id_bytes n h =
    ap₂ (λ x y. bit_or x (y <<< 8)) (bit_and_low 8 n) (bit_and_low 8 (n / 2 ^ 8))
    ∙ bit_or_fields_below 8 ((n / 2 ^ 8) % 2 ^ 8) (n % 2 ^ 8) (omega arith)
    ∙ omega arith

flags_back :
    (wakeup ir : Bool)
    → let byte = bit_or (bit_or 0x14 (if wakeup then 1 else 0)) (if ir then 2 else 0) in
      (not (bit_and byte 1 == 0) ≡ wakeup) × (not (bit_and byte 2 == 0) ≡ ir)
flags_back true true = (refl, refl)
flags_back true false = (refl, refl)
flags_back false true = (refl, refl)
flags_back false false = (refl, refl)

-- The fields in front of the strings.
header_back :
    (conf : Config) (dat later : List ℕ)
    → length dat ≡ 256
    → conf.vendor_id < 2 ^ 16
    → conf.product_id < 2 ^ 16
    → Agree 9 (blit dat 0 (header conf)) later
    → ((bit_or (get_or later 2 0) (get_or later 3 0 <<< 8) ≡ conf.vendor_id)
        × (bit_or (get_or later 4 0) (get_or later 5 0 <<< 8) ≡ conf.product_id)
        × ((get_or later 6 0 == 0xa5) ≡ conf.have_serial)
        × (not (bit_and (get_or later 7 0) 1 == 0) ≡ conf.remote_wakeup)
        × (not (bit_and (get_or later 7 0) 2 == 0) ≡ conf.enable_ir))
header_back conf dat later len v p agree =
    rw
      (
        cell 2 (omega arith),
        cell 3 (omega arith),
        cell 4 (omega arith),
        cell 5 (omega arith),
        cell 6 (omega arith),
        cell 7 (omega arith),
      )
      (
        id_bytes conf.vendor_id v,
        id_bytes conf.product_id p,
        ground arith,
        (flags_back conf.remote_wakeup conf.enable_ir).0,
        (flags_back conf.remote_wakeup conf.enable_ir).1,
      )
  where
    cell : (k : ℕ) → k < 9 → get_or later k 0 ≡ get_or (header conf) k 0
    cell k h =
        agree.1 k h (λ e. absurd (omega arith))
        ∙ ground (arith, get_or-blit dat 0 (header conf) k 0)

-- Three stored strings behind a header are read back after the last store.
parse_stored :
    (old conf : Config) (dat d1 d2 d3 : List ℕ) (pos1 pos2 pos3 : ℕ)
    → length dat ≡ 256
    → conf.vendor_id < 2 ^ 16
    → conf.product_id < 2 ^ 16
    → Holds 9 (c_string conf.manufacturer) (blit dat 0 (header conf)) (some pos1, d1)
    → Holds pos1 (c_string conf.product) d1 (some pos2, d2)
    → Holds pos2 (c_string conf.serial) d2 (some pos3, d3)
    → parse_eeprom_to_conf old (set d3 78 0) ≡ some (read_into old conf)
unfolding parse_eeprom_to_conf
parse_stored old conf dat d1 d2 d3 pos1 pos2 pos3 len v p (u1, b1, a1, r1) (u2, b2, a2, r2)
      (u3, b3, a3, r3) =
    rw
      (
        r1 last old.manufacturer to1,
        r2 last old.product to2,
        r3 last old.serial to3,
        fields.0,
        fields.1,
        fields.2,
        fields.3,
        fields.4,
      )
      refl
  where
    last : List ℕ
    last = set d3 78 0

    lengths : length d3 ≡ 256
    lengths = omega (arith, a1.0, a2.0, a3.0, length-blit dat 0 (header conf))

    to3 : Agree pos3 d3 last
    to3 = Agree-set pos3 d3 lengths

    to2 : Agree pos2 d2 last
    to2 = Agree-Agree pos2 pos3 d2 d3 last (omega arith) a3 to3

    to1 : Agree pos1 d1 last
    to1 = Agree-Agree pos1 pos2 d1 d2 last (omega arith) a2 to2

    to0 : Agree 9 (blit dat 0 (header conf)) last
    to0 = Agree-Agree 9 pos1 _ d1 last (omega arith) a1 to1

    fields :
        ((bit_or (get_or last 2 0) (get_or last 3 0 <<< 8) ≡ conf.vendor_id)
          × (bit_or (get_or last 4 0) (get_or last 5 0 <<< 8) ≡ conf.product_id)
          × ((get_or last 6 0 == 0xa5) ≡ conf.have_serial)
          × (not (bit_and (get_or last 7 0) 1 == 0) ≡ conf.remote_wakeup)
          × (not (bit_and (get_or last 7 0) 2 == 0) ≡ conf.enable_ir))
    fields = header_back conf dat last len v p to0

-- On an image of 256 bytes, with identifiers of 16 bits and strings that fit, what is generated from a
-- configuration is read back as that configuration, the strings copied into whatever arrays the reader
-- gives.
pub parse_eeprom_to_conf-gen :
    (old conf : Config) (dat : List ℕ)
    → length dat ≡ 256
    → conf.vendor_id < 2 ^ 16
    → conf.product_id < 2 ^ 16
    → fits conf ≡ true
    → parse_eeprom_to_conf old (gen_eeprom_from_conf conf dat).1 ≡ some (read_into old conf)
unfolding gen_eeprom_from_conf
parse_eeprom_to_conf-gen old conf dat len v p f =
    let d0 = blit dat 0 (header conf) in
    let m = length (c_string conf.manufacturer) in
    let q = length (c_string conf.product) in
    let whole = length-blit dat 0 (header conf) ∙ len in
    let (d1, e1, h1) =
      stored_string 9 conf.manufacturer d0 refl (omega arith) whole (ground arith) in
    let (d2, e2, h2) =
      stored_string (11 + 2 * m) conf.product d1 (omega arith) (ground arith)
        (omega (arith, whole, h1.2.0)) (ground arith) in
    let (d3, e3, h3) =
      stored_string (11 + 2 * m + 2 + 2 * q) conf.serial d2 (omega arith) (ground arith)
        (omega (arith, whole, h1.2.0, h2.2.0)) (ground arith) in
    rw (e1, e2, e3) (parse_stored old conf dat d1 d2 d3 _ _ _ len v p h1 h2 h3)
