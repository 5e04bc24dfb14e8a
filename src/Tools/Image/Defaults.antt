-- ===== src/Tools/Image/Defaults.antt =====
-- `gen_default_conf` and `main` of rtl_eeprom.c behind the options.
pub mod Laws
use rtlsdrwrapper.Base.{
  ℕ, ◌+◌, ◌-◌, ◌<◌, List, [], ◌∷◌, ◌++◌, Option, none, some, Bool, true, false, not, ◌&&◌, ◌||◌,
  ◌==◌, if◌then◌else◌, length, take, drop, replicate, blit,
}
use rtlsdrwrapper.Tools.Image.{Config, strcpy, c_string, parse_eeprom_to_conf, gen_eeprom_from_conf}

pub data Configs : Type 0 where
  conf_none realtek realtek_eeprom terratec_noxon terratec_t_black terratec_t_plus : Configs

-- What the strings of the table read, as ASCII codes.
abbrev pub generic_str : List ℕ
generic_str = 71 ∷ 101 ∷ 110 ∷ 101 ∷ 114 ∷ 105 ∷ 99 ∷ []

abbrev pub realtek_str : List ℕ
realtek_str = 82 ∷ 101 ∷ 97 ∷ 108 ∷ 116 ∷ 101 ∷ 107 ∷ []

abbrev pub noxon_str : List ℕ
noxon_str = 78 ∷ 79 ∷ 88 ∷ 79 ∷ 78 ∷ []

abbrev pub dvbt_str : List ℕ
dvbt_str = 82 ∷ 84 ∷ 76 ∷ 50 ∷ 56 ∷ 51 ∷ 50 ∷ 85 ∷ 32 ∷ 68 ∷ 86 ∷ 66 ∷ 45 ∷ 84 ∷ []

abbrev pub uhidir_str : List ℕ
uhidir_str = 82 ∷ 84 ∷ 76 ∷ 50 ∷ 56 ∷ 51 ∷ 56 ∷ 85 ∷ 72 ∷ 73 ∷ 68 ∷ 73 ∷ 82 ∷ []

abbrev pub dab_str : List ℕ
dab_str = 68 ∷ 65 ∷ 66 ∷ 32 ∷ 83 ∷ 116 ∷ 105 ∷ 99 ∷ 107 ∷ []

abbrev pub serial_0 : List ℕ
serial_0 = 48 ∷ []

abbrev pub serial_1 : List ℕ
serial_1 = 48 ∷ 48 ∷ 48 ∷ 48 ∷ 48 ∷ 48 ∷ 48 ∷ 49 ∷ []

-- One case of the switch: the stores it makes.
abbrev pub preset :
    ℕ → ℕ → List ℕ → List ℕ → List ℕ → (enable_ir remote_wakeup : Bool) → Config → Config
preset vendor product_id manufacturer product serial enable_ir remote_wakeup conf = record {
  vendor_id = vendor;
  product_id = product_id;
  manufacturer = strcpy conf.manufacturer manufacturer;
  product = strcpy conf.product product;
  serial = strcpy conf.serial serial;
  have_serial = true;
  enable_ir = enable_ir;
  remote_wakeup = remote_wakeup;
}

unfoldable pub gen_default_conf : Config → Configs → Config
gen_default_conf conf conf_none = conf
gen_default_conf conf realtek = preset 0x0bda 0x2832 generic_str dvbt_str serial_0 false true conf
gen_default_conf conf realtek_eeprom =
    preset 0x0bda 0x2838 realtek_str uhidir_str serial_1 true false conf
gen_default_conf conf terratec_noxon =
    preset 0x0ccd 0x00b3 noxon_str dab_str serial_0 false true conf
gen_default_conf conf terratec_t_black =
    preset 0x0ccd 0x00a9 realtek_str uhidir_str serial_1 true false conf
gen_default_conf conf terratec_t_plus =
    preset 0x0ccd 0x00d7 realtek_str uhidir_str serial_1 true false conf

-- The options. `ir_endpoint` is none for 0.
pub record Choice : Type 0 where
  pub manuf_str : Option (List ℕ)
  pub product_str : Option (List ℕ)
  pub serial_str : Option (List ℕ)
  pub ir_endpoint : Option Bool
  pub default_config : Configs
  pub flash_file : Bool
  pub change : Bool

-- `strncpy(str, s, 255)`
abbrev pub strncpy : List ℕ → List ℕ → List ℕ
strncpy str s = let s = take 255 (c_string s) in blit str 0 (s ++ replicate (255 - length s) 0)

abbrev pub string_option : Option (List ℕ) → List ℕ → List ℕ
string_option none str = str
string_option (some s) str = strncpy str s

abbrev pub set_or_keep {ℓ} : {A : Type ℓ} → Option A → A → A
set_or_keep none old = old
set_or_keep (some a) old = a

abbrev pub given {ℓ} : {A : Type ℓ} → Option A → Bool
given none = false
given (some a) = true

-- The stores into `conf` in front of the write.
unfoldable pub new_conf : Choice → Config → Config
unfolding gen_default_conf
new_conf o conf =
    gen_default_conf
      (record conf {
        manufacturer = string_option o.manuf_str conf.manufacturer;
        product = string_option o.product_str conf.product;
        serial = string_option o.serial_str conf.serial;
        have_serial = if given o.serial_str then true else conf.have_serial;
        enable_ir = set_or_keep o.ir_endpoint conf.enable_ir;
      })
      o.default_config

-- What `main` gives to `rtlsdr_write_eeprom`; `leaves` is an exit without it.
pub data Ending : Type 0 where
  leaves : Ending
  writes : (bytes : List ℕ) (len : ℕ) → Ending

abbrev pub answered : ℕ → List ℕ → ℕ → Ending
answered ch bytes len = if (ch == 121) || (ch == 0) then writes bytes len else leaves

abbrev pub generated : ℕ → Option ℕ × List ℕ → Ending
generated ch (none, dat) = leaves
generated ch (some pos, dat) = answered ch dat 128

-- `opened` is what `buf` holds after the file is read, none where no file is opened; `ch` is the
-- character read. A read behind the end of the image ends the model's run.
unfoldable pub proceed : Choice → Bool → Option (List ℕ) → List ℕ → ℕ → Option Config → Ending
proceed o filename opened image ch none = leaves
proceed o filename opened image ch (some shown) =
    if filename && not (given opened)
    then leaves
    else if not o.change
    then leaves
    else if o.flash_file
    then answered ch (set_or_keep opened image) 256
    else generated ch (gen_eeprom_from_conf (new_conf o shown) image)

-- `image` is what the dongle holds.
unfoldable pub session : Choice → Bool → Option (List ℕ) → Config → List ℕ → ℕ → Ending
unfolding proceed
session o filename opened conf image ch =
    proceed o filename opened image ch (parse_eeprom_to_conf conf image)
