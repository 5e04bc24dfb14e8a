-- ===== src/Tools/Adsb.antt =====
-- Sources/CRTLSDR/src/rtl_adsb.c: samples to bits. `quality` and `allowed_errors` are parameters
-- and not negative; the buffer is the list of its 16 bit samples.
pub mod Clean
pub mod Ends
pub mod Frames
pub mod Chain
use rtlsdrwrapper.Base.{
  ℕ, zero, suc, ◌+◌, ◌-◌, ◌*◌, ◌/◌, ◌%◌, List, [], ◌∷◌, ◌++◌, Option, none, some,
}
use rtlsdrwrapper.Base.{
  Bool, true, false, not, ◌&&◌, ◌||◌, ltb, leb, ◌==◌, if◌then◌else◌, get_or, set, length, u16,
  replicate, blit,
}

abbrev pub messagego : ℕ
messagego = 253

abbrev pub overwrite : ℕ
overwrite = 254

abbrev pub badsample : ℕ
badsample = 255

abbrev pub preamble_len : ℕ
preamble_len = 16

abbrev pub abs8 : ℕ → ℕ
abs8 x = if leb 127 x then x - 127 else 127 - x

-- `squares[x]`
abbrev pub squares : ℕ → ℕ
squares x = u16 (abs8 x * abs8 x)

-- The buffer's pairs of bytes as 16 bit samples.
pub magnitute : List ℕ → List ℕ
magnitute (i ∷ q ∷ buf) = u16 (squares i + squares q) ∷ magnitute buf
magnitute _ = []

unfoldable pub single_manchester : ℕ → ℕ → ℕ → ℕ → ℕ → ℕ
single_manchester quality a b c d =
    let bit_p = ltb b a in
    let bit = ltb d c in
    let value = if bit then 1 else 0 in
    if quality == 0
    then value
    else if quality == 5
    then (if bit && bit_p && ltb c b
        then badsample
        else if not bit && not bit_p && ltb b c
        then badsample
        else value)
    else if quality == 10
    then (if bit && bit_p && ltb b c
        then 1
        else if bit && not bit_p && ltb d b
        then 1
        else if not bit && bit_p && ltb b d
        then 0
        else if not bit && not bit_p && ltb c b
        then 0
        else badsample)
    else if bit && bit_p && ltb b c && ltb d a
    then 1
    else if bit && not bit_p && ltb a c && ltb d b
    then 1
    else if not bit && bit_p && ltb c a && ltb b d
    then 0
    else if not bit && not bit_p && ltb c b && ltb a d
    then 0
    else badsample

abbrev pub is_pulse : ℕ → Bool
is_pulse i2 = (i2 == 0) || (i2 == 2) || (i2 == 7) || (i2 == 9)

-- `n` rounds are left.
unfoldable pub preamble_loop : ℕ → List ℕ → ℕ → ℕ → ℕ → ℕ → Bool
preamble_loop zero buf i i2 low high = true
preamble_loop (suc n) buf i i2 low high =
    let x = get_or buf (i + i2) 0 in
    let high' = if is_pulse i2 then x else high in
    let low' = if is_pulse i2 then low else x in
    let rest = preamble_loop n buf i (i2 + 1) low' high' in if leb high' low' then false else rest

unfoldable pub preamble : List ℕ → ℕ → Bool
unfolding preamble_loop
preamble buf i = preamble_loop preamble_len buf i 0 0 65535

-- The variables of `manchester` that outlive a round of its loop.
pub record Scan : Type 0 where
  pub buf : List ℕ
  pub i : ℕ
  pub a : ℕ
  pub b : ℕ

-- The search for a preamble; `n` indices are left.
pub find_preamble : ℕ → Scan → Scan
unfolding preamble
find_preamble zero s = s
find_preamble (suc n) s =
    let rest = find_preamble n (record s { i = s.i + 1 }) in
    if preamble s.buf s.i
    then record {
      buf = blit s.buf s.i (replicate preamble_len messagego);
      i = s.i + preamble_len;
      a = get_or s.buf s.i 0;
      b = get_or s.buf (s.i + 1) 0;
    }
    else rest

-- `buf[i] = buf[i+1] = OVERWRITE; buf[i2] = bit`
abbrev pub store_bit : List ℕ → ℕ → ℕ → ℕ → List ℕ
store_bit buf i i2 bit = set (set (set buf (i + 1) overwrite) i overwrite) i2 bit

-- The loop that marks bits; `n` rounds are left.
module _ (quality allowed_errors : ℕ) where
  pub mark_bits : ℕ → ℕ → ℕ → Scan → Scan
  unfolding single_manchester
  mark_bits zero i2 errors s = s
  mark_bits (suc n) i2 errors s =
      let c = get_or s.buf s.i 0 in
      let d = get_or s.buf (s.i + 1) 0 in
      let bit = single_manchester quality s.a s.b c d in
      let guess = if ltb d c then 1 else 0 in
      let good =
        mark_bits n (i2 + 1) errors
          (record { buf = store_bit s.buf s.i i2 bit; i = s.i + 2; a = c; b = d }) in
      let tolerated =
        mark_bits n (i2 + 1) (errors + 1)
          (record { buf = store_bit s.buf s.i i2 guess; i = s.i + 2; a = 0; b = 65535 }) in
      if bit == badsample
      then (if ltb allowed_errors (errors + 1)
          then record { buf = set s.buf i2 badsample; i = s.i; a = c; b = d }
          else tolerated)
      else good

  -- One round of the outer loop.
  pub manchester_round : ℕ → Scan → Scan
  unfolding find_preamble mark_bits
  manchester_round len s =
      let s1 = find_preamble (len - preamble_len - s.i) s in
      mark_bits ((len - 1 - s1.i + 1) / 2) s1.i 0 s1

  -- `none` when the fuel is used up.
  pub manchester_loop : ℕ → ℕ → Scan → Option (List ℕ)
  unfolding manchester_round
  manchester_loop zero len s = none
  manchester_loop (suc fuel) len s =
      let rest = manchester_loop fuel len (manchester_round len s) in
      if ltb s.i (len - 1) then rest else some s.buf

  pub manchester : ℕ → List ℕ → Option (List ℕ)
  unfolding manchester_loop
  manchester fuel buf =
      manchester_loop fuel (length buf) (record { buf = buf; i = 0; a = 0; b = 0 })
