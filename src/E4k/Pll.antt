-- ===== src/E4k/Pll.antt =====
-- The frequency control of tuner_e4k.c: the PLL parameters for a frequency, the band, tuning.
pub mod Accuracy
pub mod Chip
pub mod Tunes
use rtlsdrwrapper.Base.{ℕ, ◌+◌, ◌-◌, ◌*◌, ◌/◌, ◌%◌, ◌^◌, bit_and, List, [], ◌∷◌, Option, none, some}
use rtlsdrwrapper.Base.{
  Bool, true, false, not, ◌&&◌, ltb, leb, ◌==◌, if◌then◌else◌, u8, u16, u32, ◌<<<◌, ◌>>>◌,
}
use rtlsdrwrapper.Base.Int.{ℤ, pos, negsuc}
use rtlsdrwrapper.Base.Words.{to_word}
use rtlsdrwrapper.R82xx.State.{Bus}
use rtlsdrwrapper.E4k.State.{E4k, PllParams, Command, Band, vhf2, vhf3, uhf, l, band_number}
use rtlsdrwrapper.Base.Int.{is_negative}
use rtlsdrwrapper.E4k.State.{◌>>=◌, ◌>>◌, pure, modify, einval}
use rtlsdrwrapper.E4k.Regs.{reg_write, reg_read, reg_set_mask}
use rtlsdrwrapper.E4k.Filter.{rf_filter_set}

-- `struct pll_settings`
pub record PllSettings : Type 0 where
  pub freq : ℕ
  pub reg_synth7 : ℕ
  pub mult : ℕ

abbrev pub setting : ℕ → ℕ → ℕ → PllSettings
setting khz synth7 m = record { freq = khz * 1000; reg_synth7 = synth7; mult = m }

abbrev pub pll_vars : List PllSettings
pll_vars =
    setting 72400 15 48
    ∷ setting 81200 14 40
    ∷ setting 108300 13 32
    ∷ setting 162500 12 24
    ∷ setting 216600 11 16
    ∷ setting 325000 10 12
    ∷ setting 350000 9 8
    ∷ setting 432000 3 8
    ∷ setting 667000 2 6
    ∷ setting 1200000 1 4
    ∷ []

-- What stands before the loop.
abbrev pub no_setting : PllSettings
no_setting = record { freq = 0; reg_synth7 = 0; mult = 2 }

unfoldable pub find_setting : List PllSettings → ℕ → PllSettings
find_setting [] flo = no_setting
find_setting (s ∷ ss) flo = if ltb flo s.freq then s else find_setting ss flo

unfoldable pub setting_for : ℕ → PllSettings
unfolding find_setting
setting_for flo = find_setting pll_vars flo

abbrev pub is_fosc_valid : ℕ → Bool
is_fosc_valid fosc = leb 16000000 fosc && leb fosc 30000000

abbrev pub pll_y : ℕ
pll_y = 65536

-- The arguments have 32, 8 and 16 bits, the result 64.
pub compute_fvco : ℕ → ℕ → ℕ → ℕ
compute_fvco f_osc z x = f_osc * z + f_osc * x / pll_y

-- The result has 32 bits, also where it is `-EINVAL`.
pub compute_flo : ℕ → ℕ → ℕ → ℕ → ℕ
unfolding compute_fvco
compute_flo f_osc z x r =
    let fvco = compute_fvco f_osc z x in if fvco == 0 then 2 ^ 32 - 22 else u32 (fvco / r)

-- `remainder` needs no wrap-around: `z` is a quotient by `fosc`. `none` is the return value 0 for a
-- clock that is not valid.
pub compute_pll_params : ℕ → ℕ → Option PllParams
unfolding setting_for compute_flo
compute_pll_params fosc intended_flo =
    let s = setting_for intended_flo in
    let intended_fvco = intended_flo * s.mult in
    let z = intended_fvco / fosc in
    let x = u32 ((intended_fvco - fosc * z) * pll_y / fosc) in
    if is_fosc_valid fosc
    then some (record {
      fosc = fosc;
      intended_flo = intended_flo;
      flo = compute_flo fosc (u8 z) (u16 x) s.mult;
      x = u16 x;
      z = u8 z;
      r = s.mult;
      r_idx = s.reg_synth7;
      threephase = not (bit_and s.reg_synth7 0x08 == 0);
    })
    else none

abbrev pub band_for : ℕ → Band
band_for flo =
    if ltb flo 140000000
    then vhf2
    else if ltb flo 350000000
    then vhf3
    else if ltb flo 1135000000
    then uhf
    else l

abbrev pub bias_for : Band → ℕ
bias_for l = 0
bias_for _ = 3

module _ {S : Type 0} (b : Bus S) where
  unfoldable pub keep_band : Band → ℤ → Command S ℤ
  keep_band band rc e = (rc, if is_negative rc then e else record e { band = band })

  -- The result of the first masked write is overwritten by that of the second.
  unfoldable pub band_set : Band → Command S ℤ
  unfolding reg_write reg_set_mask keep_band ◌>>=◌ ◌>>◌
  band_set band = do
    reg_write b 0x78 (bias_for band)
    reg_set_mask b 0x07 0x06 0
    rc ← reg_set_mask b 0x07 0x06 (u8 (band_number band <<< 1))
    keep_band band rc

  unfoldable pub band_and_filter : Command S (Unit {0})
  unfolding band_set rf_filter_set
  band_and_filter e =
      let (r, e1) = band_set (band_for e.vco.flo) e in let (r', e2) = rf_filter_set b e1 in (tt, e2)

  -- The return value is that of `e4k->vco.flo`, which the caller drops.
  unfoldable pub tune_params : PllParams → Command S (Unit {0})
  unfolding reg_write band_and_filter ◌>>=◌ ◌>>◌
  tune_params p = do
    reg_write b 0x0d p.r_idx
    reg_write b 0x09 p.z
    reg_write b 0x0a (bit_and p.x 0xff)
    reg_write b 0x0b (p.x >>> 8)
    modify (λ e. record e { vco = p })
    band_and_filter

  -- The test of the lock bit on the result of a read, cast to 32 bits.
  abbrev pub lock_code : ℤ → ℤ
  lock_code rc = if bit_and (to_word 32 rc) 0x01 == 0 then negsuc 0 else pos 0

  unfoldable pub tune_and_check : PllParams → Command S ℤ
  unfolding reg_read tune_params ◌>>=◌ ◌>>◌
  tune_and_check p = do tune_params p; rc ← reg_read b 0x07; pure (lock_code rc)

  -- `if (!rc)`: a clock that is not valid, or a computed frequency of 0.
  unfoldable pub tune_found : Option PllParams → Command S ℤ
  unfolding tune_and_check
  tune_found none e = (einval, e)
  tune_found (some p) e = if p.flo == 0 then (einval, e) else tune_and_check p e

  unfoldable pub tune_freq : ℕ → Command S ℤ
  unfolding compute_pll_params tune_found
  tune_freq freq e = tune_found (compute_pll_params e.vco.fosc freq) e
