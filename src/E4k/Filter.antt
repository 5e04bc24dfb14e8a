-- ===== src/E4k/Filter.antt =====
-- The filters of tuner_e4k.c: the RF filter by the tuned frequency, the IF filters by bandwidth.
pub mod Nearest
pub mod ReadBack
use rtlsdrwrapper.Base.{
  ℕ, ◌+◌, ◌-◌, ◌*◌, List, [], ◌∷◌, map, Bool, true, false, ltb, if◌then◌else◌, get_or,
}
use rtlsdrwrapper.Base.Int.{ℤ, pos, negsuc}
use rtlsdrwrapper.R82xx.State.{Bus}
use rtlsdrwrapper.E4k.State.{E4k, Command, Band, vhf2, vhf3, uhf, l, ◌>>=◌, pure}
use rtlsdrwrapper.E4k.Regs.{RegField, field_at, reg_set_mask, field_write, field_read}

abbrev pub unsigned_delta : ℕ → ℕ → ℕ
unsigned_delta a b = if ltb b a then a - b else b - a

-- MHz
abbrev pub rf_filt_center_uhf : List ℕ
rf_filt_center_uhf =
    map (λ x. x * 1000000)
      (360 ∷ 380 ∷ 405 ∷ 425 ∷ 450 ∷ 475 ∷ 505 ∷ 540 ∷ 575 ∷ 615 ∷ 670 ∷ 720 ∷ 760 ∷ 840 ∷ 890 ∷ 970
        ∷ [])

abbrev pub rf_filt_center_l : List ℕ
rf_filt_center_l =
    map (λ x. x * 1000000)
      (1300 ∷ 1320 ∷ 1360 ∷ 1410 ∷ 1445 ∷ 1460 ∷ 1490 ∷ 1530 ∷ 1560 ∷ 1590 ∷ 1640 ∷ 1660 ∷ 1680
        ∷ 1700 ∷ 1720 ∷ 1750 ∷ [])

-- kHz
abbrev pub mix_filter_bw : List ℕ
mix_filter_bw =
    map (λ x. x * 1000)
      (27000 ∷ 27000 ∷ 27000 ∷ 27000 ∷ 27000 ∷ 27000 ∷ 27000 ∷ 27000 ∷ 4600 ∷ 4200 ∷ 3800 ∷ 3400
        ∷ 3300 ∷ 2700 ∷ 2300 ∷ 1900 ∷ [])

abbrev pub ifrc_filter_bw : List ℕ
ifrc_filter_bw =
    map (λ x. x * 1000)
      (21400 ∷ 21000 ∷ 17600 ∷ 14700 ∷ 12400 ∷ 10600 ∷ 9000 ∷ 7700 ∷ 6400 ∷ 5300 ∷ 4400 ∷ 3400
        ∷ 2600 ∷ 1800 ∷ 1200 ∷ 1000 ∷ [])

abbrev pub ifch_filter_bw : List ℕ
ifch_filter_bw =
    map (λ x. x * 1000)
      (5500 ∷ 5300 ∷ 5000 ∷ 4800 ∷ 4600 ∷ 4400 ∷ 4300 ∷ 4100 ∷ 3900 ∷ 3800 ∷ 3700 ∷ 3600 ∷ 3400
        ∷ 3300 ∷ 3200 ∷ 3100 ∷ 3000 ∷ 2950 ∷ 2900 ∷ 2800 ∷ 2750 ∷ 2700 ∷ 2600 ∷ 2550 ∷ 2500 ∷ 2450
        ∷ 2400 ∷ 2300 ∷ 2280 ∷ 2240 ∷ 2200 ∷ 2150 ∷ [])

-- The loop with `i`, `best_delta` and `bi`.
pub closest_from : ℕ → List ℕ → ℕ → ℕ → ℕ → ℕ
closest_from freq [] i best_delta bi = bi
closest_from freq (a ∷ arr) i best_delta bi =
    let delta = unsigned_delta freq a in
    closest_from freq arr (i + 1) (if ltb delta best_delta then delta else best_delta)
      (if ltb delta best_delta then i else bi)

unfoldable pub closest_arr_idx : List ℕ → ℕ → ℕ
unfolding closest_from
closest_arr_idx arr freq = closest_from freq arr 0 0xffffffff 0

-- The cases of the enumeration leave no default.
pub choose_rf_filter : Band → ℕ → ℕ
unfolding closest_arr_idx
choose_rf_filter vhf2 freq = 0
choose_rf_filter vhf3 freq = 0
choose_rf_filter uhf freq = closest_arr_idx rf_filt_center_uhf freq
choose_rf_filter l freq = closest_arr_idx rf_filt_center_l freq

-- `enum e4k_if_filter`; no caller passes another number.
pub data IfFilter : Type 0 where
  mix chan rc : IfFilter

abbrev pub if_filter_bw : IfFilter → List ℕ
if_filter_bw mix = mix_filter_bw
if_filter_bw chan = ifch_filter_bw
if_filter_bw rc = ifrc_filter_bw

abbrev pub if_filter_fields : IfFilter → RegField
if_filter_fields mix = field_at 0x11 4 4
if_filter_fields chan = field_at 0x12 0 5
if_filter_fields rc = field_at 0x11 0 4

pub find_if_bw : IfFilter → ℕ → ℕ
unfolding closest_arr_idx
find_if_bw filter bw = closest_arr_idx (if_filter_bw filter) bw

module _ {S : Type 0} (b : Bus S) where
  unfoldable pub rf_filter_set : Command S ℤ
  unfolding reg_set_mask choose_rf_filter
  rf_filter_set e = reg_set_mask b 0x10 0xf (choose_rf_filter e.band e.vco.flo) e

  unfoldable pub if_filter_bw_set : IfFilter → ℕ → Command S ℤ
  unfolding field_write find_if_bw
  if_filter_bw_set filter bandwidth =
      field_write b (if_filter_fields filter) (find_if_bw filter bandwidth)

  unfoldable pub if_filter_chan_enable : Bool → Command S ℤ
  unfolding reg_set_mask
  if_filter_chan_enable on = reg_set_mask b 0x12 0x20 (if on then 0 else 0x20)

  unfoldable pub bandwidth_at : IfFilter → ℤ → ℤ
  bandwidth_at filter (pos i) = pos (get_or (if_filter_bw filter) i 0)
  bandwidth_at filter (negsuc n) = negsuc n

  unfoldable pub if_filter_bw_get : IfFilter → Command S ℤ
  unfolding field_read bandwidth_at ◌>>=◌
  if_filter_bw_get filter = do
    i ← field_read b (if_filter_fields filter)
    pure (bandwidth_at filter i)
