-- ===== src/R82xx/State.antt =====
-- The state of the R82xx driver (`struct r82xx_config`, `struct r82xx_priv` of
-- Sources/CRTLSDR/include/tuner_r82xx.h) and the commands that work on it.
-- The fields `pll` (never used) and `buf` (filled afresh before every use) are left out.
pub mod Keeps
use rtlsdrwrapper.Base.{ℕ, Bool, List}
use rtlsdrwrapper.Base.Int.{ℤ, pos, negsuc}

pub data R82xxChip : Type 0 where
  chip_r820t chip_r620d chip_r828d chip_r828 chip_r828s chip_r820c : R82xxChip

-- `unset` is the -1 that `r82xx_standby` stores.
pub data TunerType : Type 0 where
  unset tuner_radio tuner_analog_tv tuner_digital_tv : TunerType

pub data XtalCapValue : Type 0 where
  xtal_low_cap_30p xtal_low_cap_20p xtal_low_cap_10p : XtalCapValue
  xtal_low_cap_0p xtal_high_cap_0p : XtalCapValue

pub data DeliverySystem : Type 0 where
  sys_undefined sys_dvbt sys_dvbt2 sys_isdbt : DeliverySystem

pub record Config : Type 0 where
  pub i2c_addr : ℕ
  pub xtal : ℕ
  pub rafael_chip : R82xxChip
  pub max_i2c_msg_len : ℕ
  pub use_predetect : Bool

-- `rtl_dev` is the dongle with the chip behind it; its type is a parameter.
pub record Priv (S : Type 0) : Type 0 where
  pub cfg : Config
  pub regs : List ℕ
  pub xtal_cap_sel : XtalCapValue
  pub int_freq : ℕ
  pub fil_cal_code : ℕ
  pub input : ℕ
  pub has_lock : Bool
  pub init_done : Bool
  pub delsys : DeliverySystem
  pub tuner_type : TunerType
  pub bw : ℕ
  pub rtl_dev : S

-- What the driver calls of librtlsdr.c (rtlsdr_i2c.h). A read gives its return value, the bytes
-- that it stored, and the new state.
pub record Bus (S : Type 0) : Type 0 where
  pub i2c_write_fn : ℕ → List ℕ → S → ℤ × S
  pub i2c_read_fn : ℕ → ℕ → S → ℤ × List ℕ × S
  pub check_dongle_model : S → Bool
  pub set_bias_tee_gpio : ℕ → Bool → S → ℤ × S

-- What a call returns: a value; `err n`, the negative `int` -(n + 1); or nothing, where a loop
-- does not end or a copy leaves its array, which is undefined in C.
pub data Result (A : Type 0) : Type 0 where
  ok : A → Result A
  err : ℕ → Result A
  diverges : Result A

-- A function of the driver. What was written before an error stays written.
abbrev pub Outcome : Type 0 → Type 0 → Type 0
Outcome S A = Result A × Priv S

abbrev pub Driver : Type 0 → Type 0 → Type 0
Driver S A = Priv S → Outcome S A

module _ {S A : Type 0} where
  unfoldable pub pure : A → Driver S A
  pure a s = (ok a, s)

  unfoldable pub raise : ℕ → Driver S A
  raise n s = (err n, s)

  unfoldable pub lift : Result A → Driver S A
  lift r s = (r, s)

  unfoldable pub gets : (Priv S → A) → Driver S A
  gets f s = (ok (f s), s)

module _ {S : Type 0} where
  -- `priv->f = v`
  unfoldable pub modify : (Priv S → Priv S) → Driver S (Unit {0})
  modify f s = (ok tt, f s)

module _ {S A B : Type 0} where
  abbrev pub continue : Result A → (A → Driver S B) → Driver S B
  continue (ok a) f s = f a s
  continue (err n) f s = (err n, s)
  continue diverges f s = (diverges, s)

  -- `rc = m; if (rc < 0) return rc; f`
  infixl 10 ◌>>=◌ ◌>>◌
  unfoldable pub ◌>>=◌ : Driver S A → (A → Driver S B) → Driver S B
  unfolding pure raise lift gets modify
  ◌>>=◌ m f s = let (r, s') = m s in continue r f s'

  abbrev pub ◌>>◌ : Driver S A → Driver S B → Driver S B
  m >> n = m >>= λ _. n

-- `m;` with its return value dropped.
abbrev drop_result : Result (Unit {0}) → Result (Unit {0})
drop_result (ok a) = ok tt
drop_result (err n) = ok tt
drop_result diverges = diverges

module _ {S : Type 0} where
  unfoldable pub ignoring : Driver S (Unit {0}) → Driver S (Unit {0})
  ignoring m s = let (r, s') = m s in (drop_result r, s')

  -- `rc = m; f; return rc;`
  unfoldable pub finally : Driver S (Unit {0}) → (Priv S → Priv S) → Driver S (Unit {0})
  finally m f s = let (r, s') = m s in (r, f s')
