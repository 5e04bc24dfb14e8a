-- ===== src/Tools/Adsb/Frames/Gather.antt =====
-- What the inner loop of `messages` makes of single bits and bytes.
use rtlsdrwrapper.Base.{
  ℕ, zero, suc, ◌+◌, ◌-◌, ◌*◌, ◌/◌, ◌%◌, ◌^◌, ◌<◌, ◌≤◌, ◌≡◌, refl, sym, ap, ap₂, ◌∙◌, List, [], ◌∷◌,
  ◌++◌, arith, bit_or, bit_and,
}
use rtlsdrwrapper.Base.{
  true, false, ◌&&◌, ltb, leb, ◌==◌, if◌then◌else◌, All, length, set, get_or, get_or-set, u8, ◌<<<◌,
}
use native.Mathlib.Nat.{pow-suc, one-le-pow, pow-le-pow_right}
use rtlsdrwrapper.Base.Bits.{bit_or_fields}
use rtlsdrwrapper.Tools.Adsb.Frames.{Gathered, add_bit, gather}

-- The eight bits of a byte, the highest first.
abbrev pub bits_of : ℕ → List ℕ
bits_of b =
    b / 128 % 2
    ∷ b / 64 % 2
    ∷ b / 32 % 2
    ∷ b / 16 % 2
    ∷ b / 8 % 2
    ∷ b / 4 % 2
    ∷ b / 2 % 2
    ∷ b % 2
    ∷ []

bits-All : (b : ℕ) → All (λ x. x ≤ 1) (bits_of b)
bits-All b = ground arith

abbrev pub encode : List ℕ → List ℕ
encode [] = []
encode (b ∷ bs) = bits_of b ++ encode bs

-- The number that the bits make behind `v`.
abbrev pub word : ℕ → List ℕ → ℕ
word v [] = v
word v (x ∷ xs) = word (2 * v + x) xs

-- Bit `7 - s` of a byte whose bits before it make `v`.
byte_bit :
    (s v x : ℕ)
    → s < 8
    → x ≤ 1
    → (if x == 0 then v <<< suc s else bit_or (v <<< suc s) (u8 (1 <<< s))) ≡ (2 * v + x) <<< s
byte_bit s v zero h l = grind (arith, pow-suc 2 s)
byte_bit s v (suc (suc x)) h l = absurd (omega arith)
byte_bit s v (suc zero) h l =
    ap (bit_or (v <<< suc s)) one
    ∙ bit_or_fields (suc s) v (2 ^ s) (omega (arith, pow-suc 2 s, small s h))
    ∙ grind (arith, pow-suc 2 s)
  where
    small : (s : ℕ) → s < 8 → (0 < 2 ^ s) × (2 ^ s < 256)
    small s h = (
      one-le-pow s 2 (omega arith),
      omega (arith, pow-le-pow_right {n = 2} (omega arith) {i = s} {j = 7} (omega arith)),
    )

    one : u8 (1 <<< s) ≡ 2 ^ s
    one = omega (arith, small s h)

set-set : (xs : List ℕ) (i v w : ℕ) → set (set xs i v) i w ≡ set xs i w
set-set [] i v w = refl
set-set (x ∷ xs) zero v w = refl
set-set (x ∷ xs) (suc i) v w = ap (λ t. x ∷ t) (set-set xs i v w)

set_same : (xs : List ℕ) (i : ℕ) → set xs i (get_or xs i 0) ≡ xs
set_same [] i = refl
set_same (x ∷ xs) zero = refl
set_same (x ∷ xs) (suc i) = ap (λ t. x ∷ t) (set_same xs i)

pub add_bit_lem :
    (fr : List ℕ) (j s v x : ℕ)
    → j < length fr
    → s < 8
    → x ≤ 1
    → add_bit x (8 * j + (8 - suc s)) (set fr j (v <<< suc s)) ≡ set fr j ((2 * v + x) <<< s)
add_bit_lem fr j s v zero h k l = ap (set fr j) (byte_bit s v 0 k l)
add_bit_lem fr j s v (suc (suc x)) h k l = absurd (omega arith)
add_bit_lem fr j s v (suc zero) h k l =
    rw (index, shift, here) (set-set fr j _ _ ∙ ap (set fr j) (byte_bit s v 1 k l))
  where
    index : (8 * j + (8 - suc s)) / 8 ≡ j
    index = omega arith

    shift : 7 - (8 * j + (8 - suc s)) % 8 ≡ s
    shift = omega arith

    here : get_or (set fr j (v <<< suc s)) j 0 ≡ v <<< suc s
    here = ground (arith, get_or-set fr j (v <<< suc s) j 0 h)

-- A loop round that does not stop.
abbrev step : ℕ → Gathered → Gathered
step x g =
    let frame = add_bit x g.data_i g.frame in
    record {
      frame = frame;
      data_i = g.data_i + 1;
      frame_len =
          if g.data_i == 7
          then (if bit_and (get_or frame 0 0) 0x80 == 0 then 56 else 112)
          else g.frame_len;
    }

pub gather-step :
    (x : ℕ) (buf : List ℕ) (g : Gathered)
    → x ≤ 1
    → g.data_i < g.frame_len
    → ((g.data_i == 7) && (get_or (add_bit x g.data_i g.frame) 0 0 == 0)) ≡ false
    → gather (x ∷ buf) g ≡ gather buf (step x g)
unfolding gather
gather-step x buf g h l e =
    let t : (leb x 1 && ltb g.data_i g.frame_len) ≡ true = ground arith in rw (t, e) refl

-- Byte `j` of the frame after some of its bits, which make `v`.
abbrev pub partly : List ℕ → ℕ → ℕ → ℕ → ℕ → Gathered
partly fr j s v len = record {
  frame = set fr j (v <<< s);
  data_i = 8 * j + (8 - s);
  frame_len = len;
}

gather-partly :
    (fr : List ℕ) (j s v len x : ℕ) (buf : List ℕ)
    → j < length fr
    → s < 8
    → x ≤ 1
    → 8 * j + 7 < len
    → 0 < j + s
    → gather (x ∷ buf) (partly fr j (suc s) v len) ≡ gather buf (partly fr j s (2 * v + x) len)
gather-partly fr j s v len x buf h k l m n =
    gather-step x buf (partly fr j (suc s) v len) l (omega arith) (ground arith)
    ∙ ap (gather buf) (rw (add_bit_lem fr j s v x h k l, not_eighth, later) refl)
  where
    not_eighth : (8 * j + (8 - suc s) == 7) ≡ false
    not_eighth = ground arith

    later : 8 * j + (8 - suc s) + 1 ≡ 8 * j + (8 - s)
    later = omega arith

-- The bits of a byte, all or up to the last `s`.
pub gather-bits :
    (fr : List ℕ) (j s v len : ℕ) (xs buf : List ℕ)
    → j < length fr
    → length xs + s ≤ 8
    → All (λ x. x ≤ 1) xs
    → 8 * j + 7 < len
    → 0 < j + s
    → gather (xs ++ buf) (partly fr j (length xs + s) v len)
      ≡ gather buf (partly fr j s (word v xs) len)
gather-bits fr j s v len [] buf h k l m n = ap (λ t. gather buf (partly fr j t v len)) (omega arith)
gather-bits fr j s v len (x ∷ xs) buf h k l m n =
    ap (λ t. gather (x ∷ (xs ++ buf)) (partly fr j t v len)) (omega arith)
    ∙ gather-partly fr j (length xs + s) v len x (xs ++ buf) h (omega arith) l.0 m (omega arith)
    ∙ gather-bits fr j s (2 * v + x) len xs buf h (omega arith) l.1 m n

word-bits_of : (b : ℕ) → b < 256 → word 0 (bits_of b) ≡ b
word-bits_of b h = omega arith

-- A whole byte behind the first.
pub gather-byte :
    (fr : List ℕ) (j b len : ℕ) (buf : List ℕ)
    → j < length fr
    → get_or fr j 0 ≡ 0
    → b < 256
    → 8 * j + 7 < len
    → 0 < j
    → gather (bits_of b ++ buf) (record { frame = fr; data_i = 8 * j; frame_len = len })
      ≡ gather buf (record { frame = set fr j b; data_i = 8 * (j + 1); frame_len = len })
gather-byte fr j b len buf h z k m n =
    ap (gather (bits_of b ++ buf))
      (ap₂ (state) (sym (ap (set fr j) (sym z) ∙ set_same fr j)) (omega arith))
    ∙ gather-bits fr j 0 0 len (bits_of b) buf h (omega arith) (bits-All b) m (omega arith)
    ∙ ap (gather buf) (ap₂ (state) (ap (set fr j) (omega (arith, word-bits_of b k))) (omega arith))
  where
    state : List ℕ → ℕ → Gathered
    state frame data_i = record { frame = frame; data_i = data_i; frame_len = len }
