-- ===== src/Tools/Tests.antt =====
-- The programs' properties at concrete inputs.
use rtlsdrwrapper.Base.{ℕ, zero, suc, ◌≡◌, refl, List, [], ◌∷◌, ◌++◌, none, some, arith}
use rtlsdrwrapper.Base.{Bool, true, false, All, length, replicate}
use rtlsdrwrapper.Base.Int.{pos, negsuc}
use rtlsdrwrapper.Rtl.Discovery.{Listing}
use rtlsdrwrapper.Tools.Image.{
  Config, get_chars, get_string_descriptor, set_chars, set_string_descriptor, parse_eeprom_to_conf,
  gen_eeprom_from_conf,
}
use rtlsdrwrapper.Tools.Image.Laws.{read_into, parse_eeprom_to_conf-gen}
use rtlsdrwrapper.Tools.Image.Defaults.{
  conf_none, Choice, Ending, leaves, writes, session, proceed, new_conf, gen_default_conf,
}
use rtlsdrwrapper.Tools.Image.Defaults.Laws.{IsByte, ShownAs, session-written}
use rtlsdrwrapper.Tools.Adsb.{manchester, preamble, preamble_loop}
use rtlsdrwrapper.Tools.Adsb.Ends.{manchester_ends}
use rtlsdrwrapper.Tools.Adsb.Clean.{Symbols}
use rtlsdrwrapper.Tools.Adsb.Chain.{signal, frame_displayed}
use rtlsdrwrapper.Tools.Adsb.Frames.{messages, display}
use rtlsdrwrapper.Tools.Adsb.Frames.Gather.{encode}
use rtlsdrwrapper.Tools.Fm.{reset, low_pass, rotate_90}
use rtlsdrwrapper.Tools.Fm.Decimation.{concat, sums, low_pass-blocks}
use rtlsdrwrapper.Tools.Fm.HalfBand.{Hist, fifth_order, fifth_order-last}
use rtlsdrwrapper.Tools.Fm.Rotation.{complex_samples, turning, rotate_90-turning}

-- An empty array, and a configuration with the strings "A", "B" and "7".
abbrev array : List ℕ
array = replicate 256 0

abbrev conf : Config
conf = record {
  vendor_id = 0x0bda;
  product_id = 0x2838;
  manufacturer = 65 ∷ 0 ∷ [];
  product = 66 ∷ 0 ∷ [];
  serial = 55 ∷ 0 ∷ [];
  have_serial = true;
  enable_ir = false;
  remote_wakeup = true;
}

abbrev arrays : Config
arrays = record conf { manufacturer = array; product = array; serial = array }

parse_eeprom_to_conf-gen_example :
    parse_eeprom_to_conf arrays (gen_eeprom_from_conf conf array).1 ≡ some (read_into arrays conf)
parse_eeprom_to_conf-gen_example =
    parse_eeprom_to_conf-gen arrays conf array refl (omega arith) (omega arith) refl

-- The options `-s 7`.
abbrev choice : Choice
choice = record {
  manuf_str = none;
  product_str = none;
  serial_str = some (55 ∷ []);
  ir_endpoint = none;
  default_config = conf_none;
  flash_file = false;
  change = true;
}

abbrev bytes_of : Ending → List ℕ
bytes_of leaves = []
bytes_of (writes bytes len) = bytes

abbrev image : List ℕ
image = 0x28 ∷ 0x32 ∷ 0xda ∷ 0x0b ∷ 0x38 ∷ 0x28 ∷ replicate 250 0

writes_128 :
    session choice false none arrays image 121
    ≡ writes (bytes_of (session choice false none arrays image 121)) 128
unfolding session proceed new_conf gen_default_conf parse_eeprom_to_conf gen_eeprom_from_conf
    get_chars get_string_descriptor set_chars set_string_descriptor
writes_128 = refl

image-All : (n : ℕ) → All IsByte (replicate n 0)
image-All zero = tt
image-All (suc n) = (omega arith, image-All n)

session-written_example :
    (◌≡◌ {A = ℕ} 128 128)
    × ShownAs choice arrays
        (parse_eeprom_to_conf arrays image)
        (bytes_of (session choice false none arrays image 121))
session-written_example =
    session-written choice false none arrays arrays image 121
      (bytes_of (session choice false none arrays image 121)) 128 refl
      (
        omega arith,
        (omega arith, (omega arith, (omega arith, (omega arith, (omega arith, image-All 250))))),
      )
      refl writes_128

manchester_ends_example :
    (buf : List ℕ) × (manchester 10 1 4 (9 ∷ 7 ∷ 5 ∷ []) ≡ some buf)
    × (length buf ≡ length {A = ℕ} (9 ∷ 7 ∷ 5 ∷ []))
manchester_ends_example = manchester_ends 10 1 4 (9 ∷ 7 ∷ 5 ∷ []) (omega arith) (omega arith)

-- The samples of a short frame.
abbrev samples : List Bool → List ℕ
samples [] = []
samples (true ∷ bits) = 100 ∷ 10 ∷ samples bits
samples (false ∷ bits) = 10 ∷ 100 ∷ samples bits

abbrev preamble_samples : List ℕ
preamble_samples =
    100 ∷ 10 ∷ 100 ∷ 10 ∷ 10 ∷ 10 ∷ 10 ∷ 100 ∷ 10 ∷ 100 ∷ 10 ∷ 10 ∷ 10 ∷ 10 ∷ 10 ∷ 10 ∷ []

abbrev frame : List ℕ
frame = 93 ∷ 64 ∷ 6 ∷ 33 ∷ 0 ∷ 255 ∷ 1 ∷ []

abbrev received : List ℕ
received = preamble_samples ++ samples (signal (encode frame))

preamble_found : preamble received 0 ≡ true
unfolding preamble preamble_loop
preamble_found = refl

received-Symbols : Symbols 50 received 16 (signal (encode frame))
received-Symbols = omega arith

frame_displayed_example :
    (buf : List ℕ) × (manchester 10 5 2 received ≡ some buf)
    × (messages true 10 buf ≡ display true 10 frame 56)
frame_displayed_example =
    frame_displayed 10 5 0 50 true received (64 ∷ 6 ∷ 33 ∷ 0 ∷ 255 ∷ 1 ∷ []) 93 preamble_found
      (omega arith) received-Symbols refl (omega arith) (omega arith) refl

abbrev one_device : Listing
one_device = record {
  init_result = pos 0;
  devices =
      record {
        id_vendor = 0x0bda;
        id_product = 0x2838;
        open_result = pos 0;
        descriptor_result = pos 0;
        serial = 55 ∷ 56 ∷ [];
      }
      ∷ [];
}

low_pass-blocks_example :
    low_pass 2 reset (concat (((pos 3, pos 4) ∷ (pos 5, negsuc 0) ∷ []) ∷ []))
    ≡ (sums (((pos 3, pos 4) ∷ (pos 5, negsuc 0) ∷ []) ∷ []), reset)
low_pass-blocks_example =
    low_pass-blocks 2 (((pos 3, pos 4) ∷ (pos 5, negsuc 0) ∷ []) ∷ []) (omega arith) (refl, tt)

abbrev eight_bytes : List ℕ
eight_bytes = 1 ∷ 2 ∷ 3 ∷ 4 ∷ 5 ∷ 6 ∷ 7 ∷ 255 ∷ []

rotate_90-turning_example :
    complex_samples (rotate_90 eight_bytes) ≡ turning (complex_samples eight_bytes)
rotate_90-turning_example = rotate_90-turning eight_bytes (omega arith) refl

-- A history of zeros.
abbrev zeros : Hist
zeros = record { a = pos 0; b = pos 0; c = pos 0; d = pos 0; e = pos 0; f = pos 0 }

fifth_order-last_example :
    fifth_order zeros (pos 160 ∷ pos 320 ∷ pos 160 ∷ pos 7 ∷ [])
    ≡ fifth_order zeros (pos 160 ∷ pos 320 ∷ pos 160 ∷ negsuc 900 ∷ [])
fifth_order-last_example =
    fifth_order-last zeros (pos 160 ∷ pos 320 ∷ pos 160 ∷ []) (pos 7) (negsuc 900) refl
