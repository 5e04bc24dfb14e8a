-- ===== src/R82xx/Sysfreq.antt =====
-- `r82xx_sysfreq_sel` of tuner_r82xx.c: thresholds and currents for a broadcast system.
pub mod Laws
use rtlsdrwrapper.Base.{ℕ, Bool, true, false, ◌==◌, ◌||◌, if◌then◌else◌}
use rtlsdrwrapper.R82xx.State.{Priv, Bus, Driver, DeliverySystem, TunerType, tuner_analog_tv}
use rtlsdrwrapper.R82xx.State.{sys_dvbt, sys_dvbt2, sys_isdbt, sys_undefined}
use rtlsdrwrapper.R82xx.State.{◌>>=◌, ◌>>◌, gets, modify, pure}
use rtlsdrwrapper.R82xx.Shadow.{write_reg, write_reg_mask}

pub record SysfreqSettings : Type 0 where
  pub mixer_top : ℕ
  pub lna_top : ℕ
  pub cp_cur : ℕ
  pub div_buf_cur : ℕ
  pub lna_vth_l : ℕ
  pub mixer_vth_l : ℕ
  pub air_cable1_in : ℕ
  pub cable2_in : ℕ
  pub pre_dect : ℕ
  pub lna_discharge : ℕ
  pub filter_cur : ℕ

-- The settings that DVB-T2 and the default case share.
abbrev pub default_settings : SysfreqSettings
default_settings = record {
  mixer_top = 0x24;
  lna_top = 0xe5;
  cp_cur = 0x38;
  div_buf_cur = 0x30;
  lna_vth_l = 0x53;
  mixer_vth_l = 0x75;
  air_cable1_in = 0x00;
  cable2_in = 0x00;
  pre_dect = 0x40;
  lna_discharge = 14;
  filter_cur = 0x40;
}

pub sysfreq_settings : ℕ → DeliverySystem → SysfreqSettings
sysfreq_settings freq sys_dvbt =
    if freq == 506000000 || freq == 666000000 || freq == 818000000
    then record default_settings { mixer_top = 0x14; cp_cur = 0x28; div_buf_cur = 0x20 }
    else default_settings
sysfreq_settings freq sys_dvbt2 = default_settings
sysfreq_settings freq sys_isdbt = record default_settings { lna_vth_l = 0x75 }
sysfreq_settings freq sys_undefined = default_settings

abbrev is_analog : TunerType → Bool
is_analog tuner_analog_tv = true
is_analog _ = false

module _ {S : Type 0} (b : Bus S) where
  -- The two branches behind `Set LNA`.
  lna_digital : SysfreqSettings → Driver S (Unit {0})
  lna_digital c = do
    write_reg_mask b 0x1d 0 0x38
    write_reg_mask b 0x1c 0 0x04
    write_reg_mask b 0x06 0 0x40
    write_reg_mask b 0x1a 0x30 0x30
    write_reg_mask b 0x1d 0x18 0x38
    write_reg_mask b 0x1c c.mixer_top 0x04
    write_reg_mask b 0x1e c.lna_discharge 0x1f
    write_reg_mask b 0x1a 0x20 0x30

  lna_analog : SysfreqSettings → Driver S (Unit {0})
  lna_analog c = do
    write_reg_mask b 0x06 0 0x40
    write_reg_mask b 0x1d c.lna_top 0x38
    write_reg_mask b 0x1c c.mixer_top 0x04
    write_reg_mask b 0x1e c.lna_discharge 0x1f
    write_reg_mask b 0x1a 0x00 0x30
    write_reg_mask b 0x10 0x00 0x04

  set_thresholds : SysfreqSettings → Driver S (Unit {0})
  set_thresholds c = do
    cfg ← gets (λ s. s.cfg)
    if cfg.use_predetect then write_reg_mask b 0x06 c.pre_dect 0x40 else pure tt
    write_reg_mask b 0x1d c.lna_top 0xc7
    write_reg_mask b 0x1c c.mixer_top 0xf8
    write_reg b 0x0d c.lna_vth_l
    write_reg b 0x0e c.mixer_vth_l
    modify (λ s. record s { input = c.air_cable1_in })
    write_reg_mask b 0x05 c.air_cable1_in 0x60
    write_reg_mask b 0x06 c.cable2_in 0x08
    write_reg_mask b 0x11 c.cp_cur 0x38
    write_reg_mask b 0x17 c.div_buf_cur 0x30
    write_reg_mask b 0x0a c.filter_cur 0x60

  pub sysfreq_sel : ℕ → TunerType → DeliverySystem → Driver S (Unit {0})
  unfolding set_thresholds lna_digital lna_analog
  sysfreq_sel freq type delsys = do
    let c = sysfreq_settings freq delsys
    set_thresholds c
    if is_analog type then lna_analog c else lna_digital c
