-- ===== src/Tools/Image/Defaults/Laws.antt =====
-- What the program writes is the configuration that it has shown.
use rtlsdrwrapper.Base.{
  ℕ, zero, suc, ◌+◌, ◌<◌, ◌^◌, ◌≡◌, ◌≢◌, refl, ◌∙◌, List, [], ◌∷◌, Option, none, some, arith,
  bit_or,
}
use rtlsdrwrapper.Base.{
  Bool, true, false, not, ◌&&◌, ◌==◌, Bool-cases, Option-cases, inl, inr, All, get_or, length,
  ◌<<<◌,
}
use rtlsdrwrapper.Base.Bits.{bit_or_lt}
use rtlsdrwrapper.Tools.Image.{
  Config, str_offset, get_string_descriptor, c_string, strcpy, parse_eeprom_to_conf,
  gen_eeprom_from_conf,
}
use rtlsdrwrapper.Tools.Image.Laws.{
  fits, read_into, parse_eeprom_to_conf-gen, gen_eeprom_from_conf-result,
}
use rtlsdrwrapper.Tools.Image.Defaults.{
  Configs, conf_none, realtek, realtek_eeprom, terratec_noxon, terratec_t_black, terratec_t_plus,
  preset, gen_default_conf, generic_str, realtek_str, noxon_str, dvbt_str, uhidir_str, dab_str,
  serial_0, serial_1, Choice, new_conf, writes, generated, proceed, session,
}

abbrev is_text : List ℕ → Bool
is_text [] = true
is_text (c ∷ s) = not (c == 0) && is_text s

-- The string that `strcpy` leaves.
c_string-strcpy :
    (str s : List ℕ) → is_text s ≡ true → length s < length str → c_string (strcpy str s) ≡ s
c_string-strcpy [] s n h = absurd (omega arith)
c_string-strcpy (x ∷ str) [] n h = refl
c_string-strcpy (x ∷ str) (c ∷ s) n h = ground (arith, c_string-strcpy str s)

-- The arrays are long enough for the strings of the table.
abbrev pub Arrays : Config → Type 0
Arrays conf =
    (length conf.manufacturer ≡ 256) × (length conf.product ≡ 256) × (length conf.serial ≡ 256)

module _ (old conf : Config) (dat : List ℕ) (arrays : Arrays conf) (len : length dat ≡ 256) where
  parse-preset :
      (vendor product_id : ℕ) (m p s : List ℕ) (ir wakeup : Bool)
      → vendor < 2 ^ 16
      → product_id < 2 ^ 16
      → is_text m && is_text p && is_text s ≡ true
      → length m + length p + length s < 30
      → parse_eeprom_to_conf old
          (gen_eeprom_from_conf (preset vendor product_id m p s ir wakeup conf) dat).1
        ≡ some (preset vendor product_id m p s ir wakeup old)
  parse-preset vendor product_id m p s ir wakeup v q text h =
      parse_eeprom_to_conf-gen old (preset vendor product_id m p s ir wakeup conf) dat len v q
        (rw (em, ep, es) (ground arith))
      ∙ rw (em, ep, es) refl
    where
      em : c_string (strcpy conf.manufacturer m) ≡ m
      em = c_string-strcpy conf.manufacturer m (ground arith) (omega (arith, arrays))

      ep : c_string (strcpy conf.product p) ≡ p
      ep = c_string-strcpy conf.product p (ground arith) (omega (arith, arrays))

      es : c_string (strcpy conf.serial s) ≡ s
      es = c_string-strcpy conf.serial s (ground arith) (omega (arith, arrays))

  -- Each of the five default configurations is read back.
  parse-gen_default_conf :
      (config : Configs)
      → config ≢ conf_none
      → parse_eeprom_to_conf old (gen_eeprom_from_conf (gen_default_conf conf config) dat).1
        ≡ some (gen_default_conf old config)
  unfolding gen_default_conf
  parse-gen_default_conf conf_none h = absurd (h refl)
  parse-gen_default_conf realtek h =
      parse-preset _ _ generic_str dvbt_str serial_0 _ _ (omega arith) (omega arith) refl
        (omega arith)
  parse-gen_default_conf realtek_eeprom h =
      parse-preset _ _ realtek_str uhidir_str serial_1 _ _ (omega arith) (omega arith) refl
        (omega arith)
  parse-gen_default_conf terratec_noxon h =
      parse-preset _ _ noxon_str dab_str serial_0 _ _ (omega arith) (omega arith) refl (omega arith)
  parse-gen_default_conf terratec_t_black h =
      parse-preset _ _ realtek_str uhidir_str serial_1 _ _ (omega arith) (omega arith) refl
        (omega arith)
  parse-gen_default_conf terratec_t_plus h =
      parse-preset _ _ realtek_str uhidir_str serial_1 _ _ (omega arith) (omega arith) refl
        (omega arith)

-- The two numbers have 16 bits.
abbrev Ids : Option Config → Type 0
Ids none = Unit
Ids (some conf) = (conf.vendor_id < 2 ^ 16) × (conf.product_id < 2 ^ 16)

abbrev pub IsByte : ℕ → Type 0
IsByte n = n < 256

get_or-IsByte : (dat : List ℕ) (k : ℕ) → All IsByte dat → get_or dat k 0 < 256
get_or-IsByte [] k h = omega arith
get_or-IsByte (x ∷ dat) zero h = h.0
get_or-IsByte (x ∷ dat) (suc k) h = get_or-IsByte dat k h.1

ids_lt : (a b : ℕ) → a < 256 → b < 256 → bit_or a (b <<< 8) < 2 ^ 16
ids_lt a b h k = bit_or_lt 16 a (b <<< 8) (omega arith) (omega arith)

parse-Ids : (conf : Config) (dat : List ℕ) → All IsByte dat → Ids (parse_eeprom_to_conf conf dat)
unfolding parse_eeprom_to_conf
parse-Ids conf dat h =
    elim (Option-cases (get_string_descriptor str_offset dat conf.manufacturer)) [
      | inl e ↦ rw e tt
      | inr (m, e) ↦ elim (Option-cases (get_string_descriptor m.0 dat conf.product)) [
        | inl e' ↦ rw (e, e') tt
        | inr (p, e') ↦ elim (Option-cases (get_string_descriptor p.0 dat conf.serial)) [
          | inl e'' ↦ rw (e, e', e'') tt
          | inr (s, e'') ↦ rw (e, e', e'') both
        ]
      ]
    ]
  where
    both :
        (bit_or (get_or dat 2 0) (get_or dat 3 0 <<< 8) < 2 ^ 16)
        × (bit_or (get_or dat 4 0) (get_or dat 5 0 <<< 8) < 2 ^ 16)
    both = (
      ids_lt _ _ (get_or-IsByte dat 2 h) (get_or-IsByte dat 3 h),
      ids_lt _ _ (get_or-IsByte dat 4 h) (get_or-IsByte dat 5 h),
    )

new_conf-Ids : (o : Choice) (conf : Config) → Ids (some conf) → Ids (some (new_conf o conf))
unfolding new_conf
new_conf-Ids o conf h =
    elim o.default_config as (λ c. Ids (some (new_conf (record o { default_config = c }) conf))) [
      | conf_none ↦ h
      | realtek ↦ (omega arith, omega arith)
      | realtek_eeprom ↦ (omega arith, omega arith)
      | terratec_noxon ↦ (omega arith, omega arith)
      | terratec_t_black ↦ (omega arith, omega arith)
      | terratec_t_plus ↦ (omega arith, omega arith)
    ]

generated_bytes :
    (ch : ℕ) (r : Option ℕ × List ℕ) (bytes : List ℕ) (len : ℕ)
    → generated ch r ≡ writes bytes len
    → (len ≡ 128) × (bytes ≡ r.1) × (r.0 ≢ none)
generated_bytes ch (none, dat) bytes len e = ground arith
generated_bytes ch (some pos, dat) bytes len e = ground arith

generated-parse :
    (old conf : Config) (ch : ℕ) (image bytes : List ℕ) (len : ℕ)
    → length image ≡ 256
    → Ids (some conf)
    → generated ch (gen_eeprom_from_conf conf image) ≡ writes bytes len
    → (len ≡ 128) × (parse_eeprom_to_conf old bytes ≡ some (read_into old conf))
generated-parse old conf ch image bytes len l ids e =
    let (n, b, good) = generated_bytes ch (gen_eeprom_from_conf conf image) bytes len e in
    elim (Bool-cases (fits conf)) [
      | inl f ↦ (n, rw (b, parse_eeprom_to_conf-gen old conf image l ids.0 ids.1 f) refl)
      | inr f ↦ absurd (good (gen_eeprom_from_conf-result conf image ∙ rw f refl))
    ]

abbrev pub ShownAs : Choice → Config → Option Config → List ℕ → Type 0
ShownAs o old none bytes = ⊥
ShownAs o old (some shown) bytes =
    parse_eeprom_to_conf old bytes ≡ some (read_into old (new_conf o shown))

proceed-written :
    (o : Choice) (filename : Bool) (opened : Option (List ℕ)) (old : Config) (image : List ℕ)
    (ch : ℕ) (bytes : List ℕ) (len : ℕ) (shown : Option Config)
    → length image ≡ 256
    → Ids shown
    → o.flash_file ≡ false
    → proceed o filename opened image ch shown ≡ writes bytes len
    → (len ≡ 128) × ShownAs o old shown bytes
unfolding proceed
proceed-written o filename opened old image ch bytes len none l ids f e = absurd (ground arith)
proceed-written o filename opened old image ch bytes len (some shown) l ids f e =
    generated-parse old (new_conf o shown) ch image bytes len l (new_conf-Ids o shown ids)
      (ground arith)

-- With an EEPROM of 256 bytes and no file to flash, what the program writes are 128 bytes of an image
-- that is read back as the configuration it has made from the one in the EEPROM and the options.
pub session-written :
    (o : Choice) (filename : Bool) (opened : Option (List ℕ)) (old conf : Config) (image : List ℕ)
    (ch : ℕ) (bytes : List ℕ) (len : ℕ)
    → length image ≡ 256
    → All IsByte image
    → o.flash_file ≡ false
    → session o filename opened conf image ch ≡ writes bytes len
    → (len ≡ 128) × ShownAs o old (parse_eeprom_to_conf conf image) bytes
unfolding session
session-written o filename opened old conf image ch bytes len l all f e =
    proceed-written o filename opened old image ch bytes len _ l (parse-Ids conf image all) f e
