-- ===== src/Tools/Fm.antt =====
-- The integer filters and demodulators of Sources/CRTLSDR/src/rtl_fm.c. A filter that writes its
-- output into the buffer that it reads writes behind the samples it has read only: it is a function
-- from the samples to the output.
pub mod Decimation
pub mod Angle
pub mod Rotation
pub mod HalfBand
use rtlsdrwrapper.Base.{ℕ, zero, suc, ◌+◌, ◌-◌, ◌*◌, ◌/◌, List, [], ◌∷◌}
use rtlsdrwrapper.Base.{Bool, true, false, ◌&&◌, ltb, leb, ◌==◌, if◌then◌else◌, sub_u8}
use rtlsdrwrapper.Base.Int.{
  ℤ, pos, negsuc, ◌+ℤ◌, ◌-ℤ◌, ◌*ℤ◌, pos_part, neg_part, sub_ℕ, ltb_ℤ, is_negative, eq_ℤ,
}
use rtlsdrwrapper.Base.Words.{to_word, of_word}

-- `(int16_t)n`
abbrev pub i16 : ℤ → ℤ
i16 n = of_word 16 (to_word 16 n)

-- `n / d` for a positive `d`, which rounds towards zero.
abbrev pub div_ℤ : ℤ → ℕ → ℤ
div_ℤ (pos n) d = pos (n / d)
div_ℤ (negsuc n) d = sub_ℕ 0 (suc n / d)

-- Eight bytes at a time: four samples of two bytes.
pub rotate_90 : List ℕ → List ℕ
rotate_90 (b0 ∷ b1 ∷ b2 ∷ b3 ∷ b4 ∷ b5 ∷ b6 ∷ b7 ∷ buf) =
    b0
    ∷ b1
    ∷ sub_u8 255 b3
    ∷ b2
    ∷ sub_u8 255 b4
    ∷ sub_u8 255 b5
    ∷ b7
    ∷ sub_u8 255 b6
    ∷ rotate_90 buf
rotate_90 buf = buf

-- A complex sample.
abbrev pub Sample : Type 0
Sample = ℤ × ℤ

-- What `low_pass` keeps between calls.
pub record LowPass : Type 0 where
  pub now_r : ℤ
  pub now_j : ℤ
  pub prev_index : ℕ

abbrev pub reset : LowPass
reset = record { now_r = pos 0; now_j = pos 0; prev_index = 0 }

-- `now_r` and `now_j` are an `int` in C. The samples come from 8 bits, so a sum of `n` is at most
-- `128 * n` on either side of 0 (`Decimation.sum_from-Within`); `n` is at most `downsample`, which
-- `optimal_settings` keeps below 2 ^ 21, and nothing overflows.
abbrev pub add_sample : Sample → LowPass → LowPass
add_sample (r, j) d = record {
  now_r = d.now_r +ℤ r;
  now_j = d.now_j +ℤ j;
  prev_index = d.prev_index + 1;
}

pub low_pass : ℕ → LowPass → List Sample → List Sample × LowPass
low_pass downsample d [] = ([], d)
low_pass downsample d (x ∷ xs) =
    let d1 = add_sample x d in
    let goes_on = low_pass downsample d1 xs in
    let (ys, d2) = low_pass downsample reset xs in
    if ltb d1.prev_index downsample then goes_on else ((i16 d1.now_r, i16 d1.now_j) ∷ ys, d2)

-- What `low_pass_real` keeps between calls.
pub record LowPassReal : Type 0 where
  pub now_lpr : ℤ
  pub prev_lpr_index : ℕ

-- `fast` is `rate_out`, `slow` is `rate_out2`.
pub low_pass_real : ℕ → ℕ → LowPassReal → List ℤ → List ℤ × LowPassReal
low_pass_real fast slow s [] = ([], s)
low_pass_real fast slow s (x ∷ xs) =
    let now = s.now_lpr +ℤ x in
    let index = s.prev_lpr_index + slow in
    let goes_on = low_pass_real fast slow (record { now_lpr = now; prev_lpr_index = index }) xs in
    let (ys, s2) =
      low_pass_real fast slow (record { now_lpr = pos 0; prev_lpr_index = index - fast }) xs in
    if ltb index fast then goes_on else (i16 (div_ℤ now (fast / slow)) ∷ ys, s2)

unfoldable pub multiply : Sample → Sample → Sample
multiply (ar, aj) (br, bj) = ((ar *ℤ br) -ℤ (aj *ℤ bj), (aj *ℤ br) +ℤ (ar *ℤ bj))

abbrev pub negate : ℤ → ℤ
negate n = sub_ℕ (neg_part n) (pos_part n)

abbrev pub pi4 : ℕ
pi4 = 4096

-- For arguments of less than 2^18, where no product leaves 32 bits. A quotient `u * pi4 / v` with
-- `u` from -`v` to `v`.
abbrev pub quotient : ℤ → ℕ → ℤ
quotient u v = div_ℤ (sub_ℕ (pi4 * pos_part u) (pi4 * neg_part u)) v

abbrev pub abs_ℤ : ℤ → ℕ
abs_ℤ n = pos_part n + neg_part n

unfoldable pub fast_atan2 : ℤ → ℤ → ℤ
unfolding ◌-ℤ◌ ◌+ℤ◌
fast_atan2 y x =
    let yabs = abs_ℤ y in
    let angle =
      if is_negative x
      then pos (3 * pi4) -ℤ quotient (x +ℤ pos yabs) (yabs + abs_ℤ x)
      else pos pi4 -ℤ quotient (x -ℤ pos yabs) (abs_ℤ x + yabs) in
    if eq_ℤ x (pos 0) && eq_ℤ y (pos 0)
    then pos 0
    else if is_negative y
    then negate angle
    else angle

pub polar_disc_fast : Sample → Sample → ℤ
unfolding multiply fast_atan2
polar_disc_fast a (br, bj) = let (cr, cj) = multiply a (br, negate bj) in fast_atan2 cj cr

pub usb_demod : ℤ → List Sample → List ℤ
usb_demod output_scale [] = []
usb_demod output_scale ((r, j) ∷ lp) =
    i16 (i16 (r +ℤ j) *ℤ output_scale) ∷ usb_demod output_scale lp

pub lsb_demod : ℤ → List Sample → List ℤ
lsb_demod output_scale [] = []
lsb_demod output_scale ((r, j) ∷ lp) =
    i16 (i16 (r -ℤ j) *ℤ output_scale) ∷ lsb_demod output_scale lp

-- `deemph_a` is positive; `avg` is the static variable.
pub deemph_filter : ℕ → ℤ → List ℤ → List ℤ × ℤ
deemph_filter deemph_a avg [] = ([], avg)
deemph_filter deemph_a avg (x ∷ xs) =
    let d = x -ℤ avg in
    let step =
      if ltb_ℤ (pos 0) d
      then div_ℤ (d +ℤ pos (deemph_a / 2)) deemph_a
      else div_ℤ (d -ℤ pos (deemph_a / 2)) deemph_a in
    let avg' = avg +ℤ step in
    let (ys, last) = deemph_filter deemph_a avg' xs in (i16 avg' ∷ ys, last)
