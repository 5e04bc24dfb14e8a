-- ===== src/Tools/Adsb/Frames.antt =====
-- `messages` and `display` of rtl_adsb.c: bits to frames.
pub mod Gather
pub mod Whole
pub mod Laws
use rtlsdrwrapper.Base.{
  ℕ, zero, suc, ◌+◌, ◌-◌, ◌*◌, ◌/◌, ◌%◌, ◌^◌, bit_and, bit_or, List, [], ◌∷◌, ◌++◌,
}
use rtlsdrwrapper.Base.{
  Bool, true, false, not, ◌&&◌, ◌||◌, ltb, leb, ◌==◌, if◌then◌else◌, get_or, set, take, replicate,
  u8, ◌<<<◌, ◌>>>◌,
}

abbrev pub long_frame : ℕ
long_frame = 112

abbrev pub short_frame : ℕ
short_frame = 56

-- `adsb_frame`, the count of bits in it and `frame_len`.
pub record Gathered : Type 0 where
  pub frame : List ℕ
  pub data_i : ℕ
  pub frame_len : ℕ

-- `if (buf[i]) adsb_frame[index] |= (uint8_t)(1<<shift)`
abbrev pub add_bit : ℕ → ℕ → List ℕ → List ℕ
add_bit x data_i frame =
    let index = data_i / 8 in
    let shift = 7 - data_i % 8 in
    if x == 0 then frame else set frame index (bit_or (get_or frame index 0) (u8 (1 <<< shift)))

-- The inner loop, from a cell on.
pub gather : List ℕ → Gathered → Gathered
gather [] g = g
gather (x ∷ buf) g =
    let frame = add_bit x g.data_i g.frame in
    let byte = get_or frame 0 0 in
    let frame_len =
      if g.data_i == 7
      then (if bit_and byte 0x80 == 0 then short_frame else long_frame)
      else g.frame_len in
    let rest =
      gather buf (record { frame = frame; data_i = g.data_i + 1; frame_len = frame_len }) in
    if not (leb x 1 && ltb g.data_i g.frame_len)
    then g
    else if (g.data_i == 7) && (byte == 0)
    then record g { frame = frame }
    else rest

abbrev pub empty : Gathered
empty = record { frame = replicate 14 0; data_i = 0; frame_len = long_frame }

module _ (short_output : Bool) (quality : ℕ) where
  -- The bytes that `display` prints between `*` and `;`, if it prints.
  abbrev pub display : List ℕ → ℕ → List (List ℕ)
  display frame len =
      let df = bit_and (get_or frame 0 0 >>> 3) 0x1f in
      if not short_output && leb len short_frame
      then []
      else if (quality == 0) && not ((df == 11) || (df == 17) || (df == 18) || (df == 19))
      then []
      else take ((len + 7) / 8) frame ∷ []

  abbrev pub show_gathered : Gathered → List (List ℕ)
  show_gathered g = if ltb g.data_i (g.frame_len - 1) then [] else display g.frame g.frame_len

  -- `passed` cells are behind the inner loop already.
  pub messages_from : ℕ → List ℕ → List (List ℕ)
  unfolding gather
  messages_from passed [] = []
  messages_from (suc passed) (x ∷ buf) = messages_from passed buf
  messages_from zero (x ∷ buf) =
      let g = gather (x ∷ buf) empty in
      let next = messages_from 0 buf in
      let behind = messages_from g.data_i buf in if ltb 1 x then next else show_gathered g ++ behind

  pub messages : List ℕ → List (List ℕ)
  unfolding messages_from
  messages = messages_from 0
