-- ===== src/Tools/Adsb/Frames/Whole.antt =====
-- What the inner loop of `messages` makes of a whole frame.
use rtlsdrwrapper.Base.{
  ℕ, zero, suc, ◌+◌, ◌*◌, ◌/◌, ◌%◌, ◌<◌, ◌≤◌, ◌≡◌, refl, sym, ap, ap₂, ◌∙◌, List, [], ◌∷◌, ◌++◌,
  arith, bit_and,
}
use rtlsdrwrapper.Base.{
  false, ◌&&◌, ltb, leb, ◌==◌, if◌then◌else◌, All, length, length-set, set, blit, replicate, get_or,
  get_or-set, ◌<<<◌,
}
use mathlib.Core.List.{append_assoc}
use rtlsdrwrapper.Base.Bits.{bit_and-pow}
use rtlsdrwrapper.Tools.Adsb.Frames.{Gathered, long_frame, short_frame, add_bit, gather, empty}
use rtlsdrwrapper.Tools.Adsb.Frames.Gather.{
  bits_of, encode, word, add_bit_lem, gather-step, partly, gather-bits, gather-byte,
}

gather-full : (buf : List ℕ) (g : Gathered) → g.frame_len ≤ g.data_i → gather buf g ≡ g
unfolding gather
gather-full [] g h = refl
gather-full (x ∷ buf) g h =
    let t : (leb x 1 && ltb g.data_i g.frame_len) ≡ false = ground arith in rw t refl

blit-none : (fr : List ℕ) (j : ℕ) → blit fr j [] ≡ fr
blit-none [] j = refl
blit-none (x ∷ fr) zero = refl
blit-none (x ∷ fr) (suc j) = ap (λ t. x ∷ t) (blit-none fr j)

blit-one : (fr : List ℕ) (j b : ℕ) (bs : List ℕ) → blit (set fr j b) (suc j) bs ≡ blit fr j (b ∷ bs)
blit-one [] j b bs = refl
blit-one (x ∷ fr) zero b bs = refl
blit-one (x ∷ fr) (suc j) b bs = ap (λ t. x ∷ t) (blit-one fr j b bs)

abbrev pub gathered : ℕ → List ℕ → ℕ → Gathered
gathered len frame data_i = record { frame = frame; data_i = data_i; frame_len = len }

-- What `gather` leaves when a frame is complete.
gather-bytes :
    (fr : List ℕ) (j len : ℕ) (bs buf : List ℕ)
    → j + length bs ≤ length fr
    → ((k : ℕ) → j ≤ k → get_or fr k 0 ≡ 0)
    → All (λ b. b < 256) bs
    → 8 * (j + length bs) ≡ len
    → 0 < j
    → gather (encode bs ++ buf) (gathered len fr (8 * j)) ≡ gathered len (blit fr j bs) len
gather-bytes fr j len [] buf h z k m n =
    gather-full buf (gathered len fr (8 * j)) (omega arith)
    ∙ ap₂ (gathered len) (sym (blit-none fr j)) (omega arith)
gather-bytes fr j len (b ∷ bs) buf h z k m n =
    ap (λ t. gather t (gathered len fr (8 * j))) (append_assoc (bits_of b) (encode bs) buf)
    ∙ gather-byte fr j b len (encode bs ++ buf) (omega arith) (z j (omega arith)) k.0 (omega arith)
        n
    ∙ gather-bytes (set fr j b) (j + 1) len bs buf (omega (arith, length-set fr j b))
        (λ i l. ground (arith, get_or-set fr j b i 0, z i)) k.1 (omega arith) (omega arith)
    ∙ ap (λ t. gathered len t len)
        (ap (λ t. blit (set fr j b) t bs) (omega arith) ∙ blit-one fr j b bs)

-- The length that the first byte gives the frame.
abbrev pub len_of : ℕ → ℕ
len_of b = if ltb b 128 then short_frame else long_frame

high_bit : (b : ℕ) → b < 256 → (bit_and b 0x80 == 0) ≡ ltb b 128
high_bit b h = ground (arith, bit_and-pow 7 b)

-- The eighth bit completes the first byte and with it the length.
gather-eighth :
    (v x b : ℕ) (buf : List ℕ)
    → 2 * v + x ≡ b
    → x ≤ 1
    → 0 < b
    → b < 256
    → gather (x ∷ buf) (partly (replicate 14 0) 0 1 v 112)
      ≡ gather buf (gathered (len_of b) (b ∷ replicate 13 0) 8)
gather-eighth v x b buf e l p h =
    gather-step x buf (partly (replicate 14 0) 0 1 v 112) l (omega arith) (rw frame (ground arith))
    ∙ ap (gather buf) (rw (frame, high_bit b h) refl)
  where
    frame : add_bit x 7 (set (replicate 14 0) 0 (v <<< 1)) ≡ b ∷ replicate 13 0
    frame =
        add_bit_lem (replicate 14 0) 0 0 v x (omega arith) (omega arith) l
        ∙ ap (λ t. t ∷ replicate 13 0) (omega arith)

get_or-zeros : (n k : ℕ) → get_or {A = ℕ} (replicate n 0) k 0 ≡ 0
get_or-zeros zero k = refl
get_or-zeros (suc n) zero = refl
get_or-zeros (suc n) (suc k) = get_or-zeros n k

-- A whole frame.
pub gather-frame :
    (b : ℕ) (bs buf : List ℕ)
    → 0 < b
    → b < 256
    → All (λ b. b < 256) bs
    → 8 * suc (length bs) ≡ len_of b
    → gather (encode (b ∷ bs) ++ buf) empty
      ≡ gathered (len_of b) (blit (b ∷ replicate 13 0) 1 bs) (len_of b)
gather-frame b bs buf p h k m =
    gather-bits (replicate 14 0) 0 1 0 112 first (b % 2 ∷ (encode bs ++ buf)) (omega arith)
      (omega arith) (ground arith) (omega arith) (omega arith)
    ∙ gather-eighth (word 0 first) (b % 2) b (encode bs ++ buf) (omega arith) (omega arith) p h
    ∙ gather-bytes (b ∷ replicate 13 0) 1 (len_of b) bs buf (ground (arith)) zeros k (omega arith)
        (omega arith)
  where
    first : List ℕ
    first =
        b / 128 % 2 ∷ b / 64 % 2 ∷ b / 32 % 2 ∷ b / 16 % 2 ∷ b / 8 % 2 ∷ b / 4 % 2 ∷ b / 2 % 2 ∷ []

    zeros : (k : ℕ) → 1 ≤ k → get_or (b ∷ replicate 13 0) k 0 ≡ 0
    zeros zero l = absurd (omega arith)
    zeros (suc k) l = get_or-zeros 13 k
