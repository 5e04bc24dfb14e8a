-- ===== src/Rtl/Tests.antt =====
-- An EEPROM behind a USB interface, a tuner that agrees to everything, and instances of the laws.
use rtlsdrwrapper.Base.{ℕ, ◌+◌, ◌≤◌, ◌<◌, ◌≡◌, ◌≢◌, refl, List, [], ◌∷◌}
use rtlsdrwrapper.Base.{Option, some, none, ◌==◌, if◌then◌else◌, length, subst}
use rtlsdrwrapper.Base.Int.{ℤ, pos, negsuc}
use rtlsdrwrapper.Base.{◌⊎◌, arith}
use rtlsdrwrapper.Rtl.Usb.{Usb, read_array, write_array}
use rtlsdrwrapper.Rtl.Eeprom.{peek, write_eeprom}
use rtlsdrwrapper.Rtl.Eeprom.Laws.{HasMemory, IsReadable, IsWritten, write_eeprom_lem}
use rtlsdrwrapper.Rtl.Fir.{fir_default, pack8, pack12}
use rtlsdrwrapper.Rtl.Fir.Laws.{Packs, unpack8, unpack12, pack8-unpack8, pack12-unpack12}
use rtlsdrwrapper.Rtl.Rate.{real_rate, real_rsamp_ratio, rsamp_ratio}
use rtlsdrwrapper.Rtl.Rate.Exact.{IsClose, real_rate-IsClose}
use rtlsdrwrapper.Rtl.Device.{Device, Tuner, Action, fc0012}
use rtlsdrwrapper.Rtl.Tuning.{set_sample_rate, einval}
use rtlsdrwrapper.Rtl.Tuning.Laws.{IsRate, KeepsRate, set_sample_rate-rate}

-- The cell that is selected, and the cells.
abbrev Memory : Type 0
Memory = ℕ × (ℕ → ℕ)

abbrev accept : List ℕ → Memory → ℤ × Memory
accept [] m = (pos 0, m)
accept (cell ∷ []) (c, f) = (pos 1, (cell, f))
accept (cell ∷ byte ∷ rest) (c, f) =
    (pos (length rest + 2), (cell, λ j. if j == cell then byte else f j))

abbrev eeprom_usb : Usb Memory
eeprom_usb = record {
  ctrl_out = λ value index bytes m. accept bytes m;
  ctrl_in = λ value index len m. (pos 1, m.1 m.0 ∷ [], m);
}

other_cell : (f : ℕ → ℕ) (cell byte j : ℕ) → j ≢ cell → (if j == cell then byte else f j) ≡ f j
other_cell f cell byte j ne = ground arith

abbrev eeprom_memory : HasMemory eeprom_usb
unfolding peek read_array write_array
eeprom_memory = record {
  cell_of = λ m. m.1;
  store_law = λ cell byte m taken j. refl;
  other_law = λ cell byte j m ne. other_cell m.1 cell byte j ne;
  keep_law = λ cell old j m. refl;
}

eeprom-IsReadable : IsReadable eeprom_usb eeprom_memory
unfolding peek read_array write_array
eeprom-IsReadable cell old m = refl

abbrev blank : Memory
blank = (0, λ j. 0)

write_eeprom_lem_example :
    ((length {A = ℕ} (0x16 ∷ 0x03 ∷ []) + 9 ≤ 256)
      × IsWritten eeprom_usb eeprom_memory 9
          (0x16 ∷ 0x03 ∷ [])
          blank
          (write_eeprom eeprom_usb 0 (0x16 ∷ 0x03 ∷ []) 9 blank))
    ⊎ ((256 < length {A = ℕ} (0x16 ∷ 0x03 ∷ []) + 9)
        × (write_eeprom eeprom_usb 0 (0x16 ∷ 0x03 ∷ []) 9 blank ≡ (negsuc 1, blank)))
write_eeprom_lem_example =
    write_eeprom_lem eeprom_usb eeprom_memory eeprom-IsReadable 0 (0x16 ∷ 0x03 ∷ []) 9 blank

pack8-unpack8_example :
    Packs (pack8 (negsuc 53 ∷ pos 14 ∷ pos 53 ∷ [])) unpack8 (negsuc 53 ∷ pos 14 ∷ pos 53 ∷ [])
pack8-unpack8_example = pack8-unpack8 (negsuc 53 ∷ pos 14 ∷ pos 53 ∷ []) (refl, (refl, (refl, tt)))

pack12-unpack12_example :
    Packs (pack12 (pos 101 ∷ negsuc 155 ∷ [])) unpack12 (pos 101 ∷ negsuc 155 ∷ [])
pack12-unpack12_example = pack12-unpack12 (pos 101 ∷ negsuc 155 ∷ []) tt (refl, (refl, tt))

real_rate-IsClose_example :
    (real_rate 28800000 1000000 ≡ 1000000)
    × IsClose 1000000 (real_rsamp_ratio (rsamp_ratio 28800000 1000000))
real_rate-IsClose_example = real_rate-IsClose 1000000 refl

abbrev agree : ℕ → Action Memory
agree n s = (pos 0, s)

abbrev agreeable : Tuner Memory
agreeable = record {
  init = none;
  exit = none;
  set_freq = some agree;
  set_bw = some agree;
  set_gain = none;
  set_if_gain = none;
  set_gain_mode = none;
}

abbrev StaysAt : Option (ℕ → Action Memory) → ℕ → Device Memory → Type 0
StaysAt none n s = Unit
StaysAt (some f) n s = (f n s).1.rate ≡ s.rate

agreeable-KeepsRate : KeepsRate agreeable
agreeable-KeepsRate = record {
  set_freq_law = λ f e n s. subst (λ o. StaysAt o n s) e refl;
  set_bw_law = λ f e n s. subst (λ o. StaysAt o n s) e refl;
}

abbrev dongle : Device Memory
dongle = record {
  devh = blank;
  rate = 0;
  rtl_xtal = 28800000;
  fir = fir_default;
  direct_sampling = pos 0;
  tuner_type = fc0012;
  tun_xtal = 28800000;
  freq = 100000000;
  bw = 0;
  offs_freq = 1740800;
  corr = pos 0;
  gain = pos 0;
  e4k_fosc = 28800000;
  r82xx_xtal = 28800000;
}

abbrev uncorrected : ℕ → ℤ → ℕ
uncorrected val ppm = val

set_sample_rate-rate_example :
    (IsRate 2048000
      × ((set_sample_rate eeprom_usb (some agreeable) uncorrected 2048000 dongle).1.rate ≡ 2048000))
    ⊎ ((IsRate 2048000 → ⊥)
        × (set_sample_rate eeprom_usb (some agreeable) uncorrected 2048000 dongle
            ≡ (einval, dongle)))
set_sample_rate-rate_example =
    set_sample_rate-rate eeprom_usb agreeable uncorrected agreeable-KeepsRate 2048000 dongle refl
