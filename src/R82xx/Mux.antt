-- ===== src/R82xx/Mux.antt =====
-- `r82xx_set_mux` of tuner_r82xx.c: the RF front end for a frequency.
pub mod Laws
use rtlsdrwrapper.Base.{ℕ, ◌/◌, ◌<◌, ◌≤◌, Bool, List, [], ◌∷◌, ltb, if◌then◌else◌, bit_or}
use rtlsdrwrapper.R82xx.State.{Priv, Bus, Driver, XtalCapValue, ◌>>=◌, ◌>>◌, gets}
use rtlsdrwrapper.R82xx.State.{xtal_low_cap_30p, xtal_low_cap_20p, xtal_low_cap_10p}
use rtlsdrwrapper.R82xx.State.{xtal_low_cap_0p, xtal_high_cap_0p}
use rtlsdrwrapper.R82xx.Shadow.{write_reg, write_reg_mask}

pub record FreqRange : Type 0 where
  pub freq : ℕ
  pub open_d : ℕ
  pub rf_mux_ploy : ℕ
  pub tf_c : ℕ
  pub xtal_cap20p : ℕ
  pub xtal_cap10p : ℕ
  pub xtal_cap0p : ℕ

abbrev range : ℕ → ℕ → ℕ → ℕ → ℕ → ℕ → ℕ → FreqRange
range f d m t c20 c10 c0 = record {
  freq = f;
  open_d = d;
  rf_mux_ploy = m;
  tf_c = t;
  xtal_cap20p = c20;
  xtal_cap10p = c10;
  xtal_cap0p = c0;
}

-- `freq_ranges[0]` and the entries behind it.
abbrev pub first_range : FreqRange
first_range = range 0 0x08 0x02 0xdf 0x02 0x01 0x00

abbrev pub more_ranges : List FreqRange
more_ranges =
    range 50 0x08 0x02 0xbe 0x02 0x01 0x00
    ∷ range 55 0x08 0x02 0x8b 0x02 0x01 0x00
    ∷ range 60 0x08 0x02 0x7b 0x02 0x01 0x00
    ∷ range 65 0x08 0x02 0x69 0x02 0x01 0x00
    ∷ range 70 0x08 0x02 0x58 0x02 0x01 0x00
    ∷ range 75 0x00 0x02 0x44 0x02 0x01 0x00
    ∷ range 80 0x00 0x02 0x44 0x02 0x01 0x00
    ∷ range 90 0x00 0x02 0x34 0x01 0x01 0x00
    ∷ range 100 0x00 0x02 0x34 0x01 0x01 0x00
    ∷ range 110 0x00 0x02 0x24 0x01 0x01 0x00
    ∷ range 120 0x00 0x02 0x24 0x01 0x01 0x00
    ∷ range 140 0x00 0x02 0x14 0x01 0x01 0x00
    ∷ range 180 0x00 0x02 0x13 0x00 0x00 0x00
    ∷ range 220 0x00 0x02 0x13 0x00 0x00 0x00
    ∷ range 250 0x00 0x02 0x11 0x00 0x00 0x00
    ∷ range 280 0x00 0x02 0x00 0x00 0x00 0x00
    ∷ range 310 0x00 0x41 0x00 0x00 0x00 0x00
    ∷ range 450 0x00 0x41 0x00 0x00 0x00 0x00
    ∷ range 588 0x00 0x40 0x00 0x00 0x00 0x00
    ∷ range 650 0x00 0x40 0x00 0x00 0x00 0x00
    ∷ []

-- The search loop: the entry before the first that starts above `freq`, or the last.
unfoldable pub find_range : FreqRange → List FreqRange → ℕ → FreqRange
find_range r [] freq = r
find_range r (n ∷ ns) freq = if ltb freq n.freq then r else find_range n ns freq

-- The entry of `freq_ranges` for a frequency in Hz.
unfoldable pub range_of : ℕ → FreqRange
unfolding find_range
range_of freq = find_range first_range more_ranges (freq / 1000000)

unfoldable pub xtal_cap : XtalCapValue → FreqRange → ℕ
xtal_cap xtal_low_cap_30p r = bit_or r.xtal_cap20p 0x08
xtal_cap xtal_low_cap_20p r = bit_or r.xtal_cap20p 0x08
xtal_cap xtal_low_cap_10p r = bit_or r.xtal_cap10p 0x08
xtal_cap xtal_high_cap_0p r = bit_or r.xtal_cap0p 0x00
xtal_cap xtal_low_cap_0p r = bit_or r.xtal_cap0p 0x08

module _ {S : Type 0} (b : Bus S) where
  unfoldable pub set_mux : ℕ → Driver S (Unit {0})
  set_mux freq = do
    let r = range_of freq
    write_reg_mask b 0x17 r.open_d 0x08
    write_reg_mask b 0x1a r.rf_mux_ploy 0xc3
    write_reg b 0x1b r.tf_c
    sel ← gets (λ s. s.xtal_cap_sel)
    write_reg_mask b 0x10 (xtal_cap sel r) 0x0b
    write_reg_mask b 0x08 0x00 0x3f
    write_reg_mask b 0x09 0x00 0x3f
