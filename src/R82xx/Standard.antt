-- ===== src/R82xx/Standard.antt =====
-- `r82xx_set_tv_standard` of tuner_r82xx.c: filter calibration and the channel filter.
pub mod Laws
use rtlsdrwrapper.Base.{ℕ, zero, suc, ◌*◌, Bool, true, false, not, ◌&&◌, ◌==◌, if◌then◌else◌}
use rtlsdrwrapper.Base.{List, [], ◌∷◌, bit_and, bit_or, get_or}
use rtlsdrwrapper.R82xx.State.{Priv, Bus, Driver, DeliverySystem, TunerType, tuner_analog_tv}
use rtlsdrwrapper.R82xx.State.{◌>>=◌, ◌>>◌, gets, modify, pure}
use rtlsdrwrapper.R82xx.Shadow.{write_reg_mask, read}
use rtlsdrwrapper.R82xx.Pll.{set_pll}

-- `r82xx_init_array`; the last three of its 30 entries have no initialiser.
abbrev pub init_array : List ℕ
init_array =
    0x83 ∷ 0x32 ∷ 0x75 ∷ 0xc0 ∷ 0x40 ∷ 0xd6 ∷ 0x6c ∷ 0xf5 ∷ 0x63 ∷ 0x75 ∷ 0x68 ∷ 0x6c ∷ 0x83 ∷ 0x80
    ∷ 0x00 ∷ 0x0f ∷ 0x00 ∷ 0xc0 ∷ 0x30 ∷ 0x48 ∷ 0xcc ∷ 0x60 ∷ 0x00 ∷ 0x54 ∷ 0xae ∷ 0x4a ∷ 0xc0 ∷ 0
    ∷ 0 ∷ 0 ∷ []

abbrev pub if_khz : ℕ
if_khz = 3570

abbrev filt_cal_lo : ℕ
filt_cal_lo = 56000

abbrev hp_cor : ℕ
hp_cor = 0x6b

abbrev filt_q : ℕ
filt_q = 0x10

abbrev pub loop_through : ℕ
loop_through = 0x01

abbrev ver_num : ℕ
ver_num = 49

abbrev not_analog : TunerType → Bool
not_analog tuner_analog_tv = false
not_analog _ = true

abbrev pub calibrated : ℕ → Bool
calibrated code = not (code == 0) && not (code == 0x0f)

module _ {S : Type 0} (b : Bus S) where
  -- What a round does once the PLL has its lock: the code that it finds is stored.
  trigger : Driver S Bool
  trigger = do
    write_reg_mask b 0x0b 0x10 0x10
    write_reg_mask b 0x0b 0x00 0x10
    write_reg_mask b 0x0f 0x00 0x04
    bytes ← read b 0x00 5
    let code = bit_and (get_or bytes 4 0) 0x0f
    modify (λ s. record s { fil_cal_code = code })
    pure (calibrated code)

  unless_done : Driver S Bool → Driver S Bool
  unfolding trigger
  unless_done again = do done ← trigger; if done then pure true else again

  -- One round; `again` is the next. `false`: the function returns since the PLL has no lock.
  round : Driver S Bool → Driver S Bool
  unfolding unless_done
  round again = do
    write_reg_mask b 0x0b hp_cor 0x60
    write_reg_mask b 0x0f 0x04 0x04
    write_reg_mask b 0x10 0x00 0x03
    set_pll b (filt_cal_lo * 1000)
    lock ← gets (λ s. s.has_lock)
    if lock then unless_done again else pure false

  -- The calibration loop with its rounds left.
  pub calibrate : ℕ → Driver S Bool
  unfolding round
  calibrate zero = pure true
  calibrate (suc rounds) = round (calibrate rounds)

  -- The writes behind the calibration.
  pub set_filter : ℕ → TunerType → DeliverySystem → Driver S (Unit {0})
  set_filter bw type delsys = do
    code ← gets (λ s. s.fil_cal_code)
    let code' = if code == 0x0f then 0 else code
    modify (λ s. record s { fil_cal_code = code' })
    write_reg_mask b 0x0a (bit_or filt_q code') 0x1f
    write_reg_mask b 0x0b hp_cor 0xef
    write_reg_mask b 0x07 0x00 0x80
    write_reg_mask b 0x06 0x10 0x30
    write_reg_mask b 0x1e 0x60 0x60
    write_reg_mask b 0x05 loop_through 0x80
    write_reg_mask b 0x1f 0x00 0x80
    write_reg_mask b 0x0f 0x00 0x80
    write_reg_mask b 0x19 0x60 0x60
    modify (λ s. record s { delsys = delsys; tuner_type = type; bw = bw })

  -- The function behind the reset of the shadow.
  program_standard : ℕ → TunerType → DeliverySystem → Driver S (Unit {0})
  unfolding calibrate set_filter
  program_standard bw type delsys = do
    write_reg_mask b 0x0c 0x00 0x0f
    write_reg_mask b 0x13 ver_num 0x3f
    if not_analog type then write_reg_mask b 0x1d 0x00 0x38 else pure tt
    modify (λ s. record s { int_freq = if_khz * 1000 })
    lock ← calibrate 2
    if lock then set_filter bw type delsys else pure tt

  -- The shadow is set to the initial values, which `r82xx_init` has just written to the chip.
  pub set_tv_standard : ℕ → TunerType → DeliverySystem → Driver S (Unit {0})
  unfolding program_standard
  set_tv_standard bw type delsys = do
    modify (λ s. record s { regs = init_array })
    program_standard bw type delsys
