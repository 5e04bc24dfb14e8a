-- ===== src/E4k/Filter/ReadBack.antt =====
-- The IF filter bandwidth that is set is the one that is read back.
use rtlsdrwrapper.Base.{ℕ, ◌^◌, ◌≤◌, ◌<◌, ◌≡◌, refl, ap, arith, get_or}
use rtlsdrwrapper.Base.Int.{pos}
use rtlsdrwrapper.R82xx.State.{Bus}
use rtlsdrwrapper.E4k.State.{E4k, ◌>>=◌}
use rtlsdrwrapper.E4k.Regs.Laws.{HasChip}
use rtlsdrwrapper.E4k.Regs.Fields.{IsField, Readable, field_write-field_read}
use rtlsdrwrapper.E4k.Filter.{
  IfFilter, mix, chan, rc, if_filter_bw, if_filter_fields, find_if_bw, if_filter_bw_set,
  if_filter_bw_get, bandwidth_at,
}
use rtlsdrwrapper.E4k.Filter.Nearest.{IsNearest, closest_arr_idx-IsNearest}

if_filter_fields-IsField : (filter : IfFilter) → IsField (if_filter_fields filter)
if_filter_fields-IsField mix = record { width_law = refl; mask_law = refl; byte_law = omega arith }
if_filter_fields-IsField chan = record { width_law = refl; mask_law = refl; byte_law = omega arith }
if_filter_fields-IsField rc = record { width_law = refl; mask_law = refl; byte_law = omega arith }

find_if_bw-IsNearest :
    (filter : IfFilter) (bw : ℕ)
    → bw ≤ 0xffffffff
    → IsNearest bw (if_filter_bw filter) (find_if_bw filter bw)
unfolding find_if_bw
find_if_bw-IsNearest mix bw h = closest_arr_idx-IsNearest bw _ _ h (omega arith) (ground arith)
find_if_bw-IsNearest chan bw h = closest_arr_idx-IsNearest bw _ _ h (omega arith) (ground arith)
find_if_bw-IsNearest rc bw h = closest_arr_idx-IsNearest bw _ _ h (omega arith) (ground arith)

module _ {S : Type 0} (b : Bus S) (reg_of : S → ℕ → ℕ) where
  -- For a bandwidth of 32 bits and a chip whose filter register can be read, after the filter was set
  -- with the result 0 the bandwidth that is read back is the entry of the filter's table nearest to the
  -- one asked for.
  pub if_filter_bw_set-get :
      (filter : IfFilter) (bw : ℕ) (e : E4k S)
      → bw ≤ 0xffffffff
      → HasChip b reg_of e
      → Readable b reg_of (if_filter_fields filter).reg e.i2c_addr
      → (if_filter_bw_set b filter bw e).0 ≡ pos 0
      → (i : ℕ) × IsNearest bw (if_filter_bw filter) i
        × ((if_filter_bw_get b filter (if_filter_bw_set b filter bw e).1).0
            ≡ pos (get_or (if_filter_bw filter) i 0))
  unfolding if_filter_bw_set if_filter_bw_get bandwidth_at ◌>>=◌
  if_filter_bw_set-get filter bw e small chip readable done = (
    find_if_bw filter bw,
    find_if_bw-IsNearest filter bw small,
    ap (bandwidth_at b filter) (
        field_write-field_read b reg_of (if_filter_fields filter) (find_if_bw filter bw) e
          (if_filter_fields-IsField filter) chip (index_fits filter) readable done),
  )
    where
      index_fits : (f : IfFilter) → find_if_bw f bw < 2 ^ (if_filter_fields f).width
      index_fits mix = (find_if_bw-IsNearest mix bw small).inside
      index_fits chan = (find_if_bw-IsNearest chan bw small).inside
      index_fits rc = (find_if_bw-IsNearest rc bw small).inside
