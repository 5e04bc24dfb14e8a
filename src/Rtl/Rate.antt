-- ===== src/Rtl/Rate.antt =====
-- The sample rate of librtlsdr.c: the resampler's ratio and what it makes of a rate.
pub mod Exact
use rtlsdrwrapper.Base.{
  ℕ, ◌+◌, ◌*◌, ◌/◌, ◌%◌, ◌^◌, bit_and, bit_or, Bool, not, ◌&&◌, ◌||◌, ltb, leb, u32, ◌<<<◌,
}

-- `check if the rate is supported by the resampler`
abbrev pub is_supported : ℕ → Bool
is_supported samp_rate = not (
    leb samp_rate 225000 || ltb 3200000 samp_rate || (ltb 300000 samp_rate && leb samp_rate 900000))

-- The quotients are of doubles in C; for a supported rate their integer parts are exactly these.
pub rsamp_ratio : ℕ → ℕ → ℕ
rsamp_ratio rtl_xtal samp_rate = bit_and (u32 (rtl_xtal * 2 ^ 22 / samp_rate)) 0x0ffffffc

-- What the resampler makes of the ratio: bit 27 stands for bit 28 too.
pub real_rsamp_ratio : ℕ → ℕ
real_rsamp_ratio ratio = bit_or ratio (u32 (bit_and ratio 0x08000000 <<< 1))

-- What `dev->rate` stores: the integer part of `real_rate`, which is a double in C. The double itself is
-- only compared with the rate for a message.
pub real_rate : ℕ → ℕ → ℕ
unfolding rsamp_ratio real_rsamp_ratio
real_rate rtl_xtal samp_rate =
    u32 (rtl_xtal * 2 ^ 22 / real_rsamp_ratio (rsamp_ratio rtl_xtal samp_rate))
