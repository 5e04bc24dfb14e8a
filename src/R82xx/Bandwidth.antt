-- ===== src/R82xx/Bandwidth.antt =====
-- `r82xx_set_bandwidth` of tuner_r82xx.c: the IF filter for a bandwidth in Hz.
pub mod Laws
pub mod Fit
use rtlsdrwrapper.Base.{ℕ, zero, suc, ◌+◌, ◌-◌, ◌/◌, List, [], ◌∷◌, if◌then◌else◌, get_or, bit_or}
use rtlsdrwrapper.Base.Int.{ℤ, pos, negsuc, ◌-ℤ◌, ltb_ℤ}
use rtlsdrwrapper.R82xx.State.{Priv, Bus, Driver, ◌>>=◌, ◌>>◌, modify, gets}
use rtlsdrwrapper.R82xx.Shadow.{write_reg_mask}

abbrev pub if_low_pass_bw_table : List ℕ
if_low_pass_bw_table =
    1700000 ∷ 1600000 ∷ 1550000 ∷ 1450000 ∷ 1200000 ∷ 900000 ∷ 700000 ∷ 550000 ∷ 450000 ∷ 350000
    ∷ []

abbrev pub filt_hp_bw1 : ℕ
filt_hp_bw1 = 350000

abbrev pub filt_hp_bw2 : ℕ
filt_hp_bw2 = 380000

-- The index of the first entry that is smaller than `bw`, or the length.
pub first_below : List ℕ → ℤ → ℕ
first_below [] bw = 0
first_below (e ∷ es) bw = if ltb_ℤ (pos e) bw then 0 else suc (first_below es bw)

pub record Filter : Type 0 where
  pub reg_0a : ℕ
  pub reg_0b : ℕ
  pub int_freq : ℕ
  pub real_bw : ℕ

-- The last case of the function. `i` is unsigned in C too; that `--i` does not wrap is proved.
pub narrow_filter : ℤ → Filter
narrow_filter bw =
    let wide2 = ltb_ℤ (pos (1700000 + filt_hp_bw1)) bw in
    let bw2 = if wide2 then bw -ℤ pos filt_hp_bw2 else bw in
    let wide1 = ltb_ℤ (pos 1700000) bw2 in
    let bw1 = if wide1 then bw2 -ℤ pos filt_hp_bw1 else bw2 in
    let i = first_below if_low_pass_bw_table bw1 - 1 in
    let added = (if wide2 then filt_hp_bw2 else 0) + (if wide1 then filt_hp_bw1 else 0) in
    let real_bw = added + get_or if_low_pass_bw_table i 0 in
    record {
      reg_0a = 0x00;
      reg_0b =
          bit_or (bit_or (bit_or 0x80 (if wide2 then 0 else 0x20)) (if wide1 then 0 else 0x40))
            (15 - i);
      int_freq = 2300000 + added - real_bw / 2;
      real_bw = real_bw;
    }

pub filter_for : ℤ → Filter
unfolding narrow_filter first_below ◌-ℤ◌
filter_for bw =
    if ltb_ℤ (pos 7000000) bw
    then record { reg_0a = 0x10; reg_0b = 0x0b; int_freq = 4570000; real_bw = 0 }
    else if ltb_ℤ (pos 6000000) bw
    then record { reg_0a = 0x10; reg_0b = 0x2a; int_freq = 4570000; real_bw = 0 }
    else if ltb_ℤ (pos (1700000 + filt_hp_bw1 + filt_hp_bw2)) bw
    then record { reg_0a = 0x10; reg_0b = 0x6b; int_freq = 3570000; real_bw = 0 }
    else narrow_filter bw

module _ {S : Type 0} (b : Bus S) where
  -- The result is the intermediate frequency.
  pub set_bandwidth : ℤ → ℕ → Driver S ℕ
  set_bandwidth bw rate = do
    let f = filter_for bw
    modify (λ s. record s { int_freq = f.int_freq })
    write_reg_mask b 0x0a f.reg_0a 0x10
    write_reg_mask b 0x0b f.reg_0b 0xef
    gets (λ s. s.int_freq)
