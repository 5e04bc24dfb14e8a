-- ===== src/Tools/Adsb/Chain.antt =====
-- From samples to the displayed frame: `manchester`, then `messages`.
use rtlsdrwrapper.Base.{
  ℕ, zero, suc, ◌+◌, ◌-◌, ◌*◌, ◌<◌, ◌≤◌, ◌≡◌, refl, ap, ap₂, ◌∙◌, List, [], ◌∷◌, ◌++◌, some, arith,
}
use rtlsdrwrapper.Base.{
  Bool, true, ltb, ◌==◌, if◌then◌else◌, All, length, replicate, get_or, get_or_ext,
}
use rtlsdrwrapper.Tools.Adsb.{overwrite, messagego, preamble, manchester}
use rtlsdrwrapper.Tools.Adsb.Clean.{Encodes, Symbols, Bits, bit_of, manchester-frame}
use rtlsdrwrapper.Tools.Adsb.Frames.{display, messages}
use rtlsdrwrapper.Tools.Adsb.Frames.Gather.{encode}
use rtlsdrwrapper.Tools.Adsb.Frames.Whole.{len_of}
use rtlsdrwrapper.Tools.Adsb.Frames.Laws.{Noise, length-encode, messages-frame}

get_or-++ :
    (xs ys : List ℕ) (k : ℕ)
    → get_or (xs ++ ys) k 0
      ≡ (if ltb k (length xs) then get_or xs k 0 else get_or ys (k - length xs) 0)
get_or-++ [] ys k = ground arith
get_or-++ (x ∷ xs) ys zero = ground arith
get_or-++ (x ∷ xs) ys (suc k) = ground (arith, get_or-++ xs ys k)

get_or-replicate : (n v k : ℕ) → k < n → get_or (replicate n v) k 0 ≡ v
get_or-replicate zero v k h = absurd (omega arith)
get_or-replicate (suc n) v zero h = refl
get_or-replicate (suc n) v (suc k) h = get_or-replicate n v k (omega arith)

length-replicate : (n v : ℕ) → length (replicate n v) ≡ n
length-replicate zero v = refl
length-replicate (suc n) v = ap suc (length-replicate n v)

length-++ : (xs ys : List ℕ) → length (xs ++ ys) ≡ length xs + length ys
length-++ [] ys = omega arith
length-++ (x ∷ xs) ys = omega (arith, length-++ xs ys)

-- The cells of the bits as a list.
abbrev cells : ℕ → List Bool → List ℕ
cells level [] = []
cells level (bit ∷ bits) = bit_of level bit ∷ cells level bits

-- The bits of bytes as truth values.
abbrev pub signal : List ℕ → List Bool
signal [] = []
signal (x ∷ xs) = (x == 1) ∷ signal xs

module _ (level : ℕ) where
  get_or-Bits :
      (buf : List ℕ) (i : ℕ) (bits : List Bool) (k : ℕ)
      → Bits level buf i bits
      → k < length bits
      → get_or buf (i + k) 0 ≡ get_or (cells level bits) k 0
  get_or-Bits buf i [] k h l = absurd (omega arith)
  get_or-Bits buf i (bit ∷ bits) zero h l = ap (λ j. get_or buf j 0) (omega arith) ∙ h.0
  get_or-Bits buf i (bit ∷ bits) (suc k) h l =
      ap (λ j. get_or buf j 0) (omega arith) ∙ get_or-Bits buf (i + 1) bits k h.1 (omega arith)

  length-cells : (bits : List Bool) → length (cells level bits) ≡ length bits
  length-cells [] = refl
  length-cells (bit ∷ bits) = ap suc (length-cells bits)

  cells-signal : (xs : List ℕ) → All (λ x. x ≤ 1) xs → cells level (signal xs) ≡ xs
  cells-signal [] h = refl
  cells-signal (x ∷ xs) h = ap₂ ◌∷◌ (ground arith) (cells-signal xs h.1)

  -- A buffer given by its cells is the list of its three parts.
  three_parts :
      (buf : List ℕ) (bits : List Bool)
      → length buf ≡ 16 + 2 * length bits
      → Bits level buf 16 bits
      → ((k : ℕ) → k < 16 → get_or buf k 0 ≡ messagego)
      → ((k : ℕ) → 16 + length bits ≤ k → k < 16 + 2 * length bits → get_or buf k 0 ≡ overwrite)
      → buf ≡ replicate 16 messagego ++ (cells level bits ++ replicate (length bits) overwrite)
  three_parts buf bits l b before behind = get_or_ext 0 buf _ lengths λ k h. ground (
    arith,
    before k,
    behind k,
    get_or-Bits buf 16 bits (k - 16) b,
    length-cells bits,
    length-replicate 16 messagego,
    get_or-replicate 16 messagego k,
    get_or-replicate (length bits) overwrite (k - 16 - length bits),
    get_or-++ (replicate 16 messagego) (cells level bits ++ replicate (length bits) overwrite) k,
    get_or-++ (cells level bits) (replicate (length bits) overwrite) (k - 16),
  )
    where
      lengths :
          length buf
          ≡ length
              (replicate 16 messagego ++ (cells level bits ++ replicate (length bits) overwrite))
      lengths = omega (
        arith,
        length-++ (cells level bits) (replicate (length bits) overwrite),
        length-cells bits,
        length-replicate (length bits) overwrite,
      )

encode-Digits : (bs : List ℕ) → All (λ x. x ≤ 1) (encode bs)
encode-Digits [] = tt
encode-Digits (b ∷ bs) = ground (arith, encode-Digits bs)

length-signal : (xs : List ℕ) → length (signal xs) ≡ length xs
length-signal [] = refl
length-signal (x ∷ xs) = ap suc (length-signal xs)

replicate-Noise : (n v : ℕ) → 1 < v → Noise (replicate n v)
replicate-Noise zero v h = tt
replicate-Noise (suc n) v h = (h, replicate-Noise n v h)

-- Samples that hold a preamble and behind it the symbols of a frame of 7 or 14 bytes, as its first byte
-- says, that is not 0, each symbol on both sides of one level and the first samples too: `manchester`
-- ends in two rounds, whatever the checks and the errors allowed, and `messages` displays exactly these
-- bytes, as far as `display` shows frames of this kind at all.
pub frame_displayed :
    (quality allowed_errors fuel level : ℕ) (short_output : Bool) (buf bs : List ℕ) (b : ℕ)
    → preamble buf 0 ≡ true
    → Encodes level true (get_or buf 0 0) (get_or buf 1 0)
    → Symbols level buf 16 (signal (encode (b ∷ bs)))
    → length buf ≡ 16 + 2 * len_of b
    → 0 < b
    → All (λ b. b < 256) (b ∷ bs)
    → 8 * length (b ∷ bs) ≡ len_of b
    → (buf' : List ℕ) × (manchester quality allowed_errors (suc (suc fuel)) buf ≡ some buf')
      × (messages short_output quality buf' ≡ display short_output quality (b ∷ bs) (len_of b))
frame_displayed quality allowed_errors fuel level short_output buf bs b pre e y l p k m =
    let (buf', r, marked, before, behind, same) =
      manchester-frame level quality allowed_errors fuel buf bits pre e y (omega (arith, count))
        (ground (arith, count)) in
    (
      buf',
      r,
      ap (messages short_output quality) (
            three_parts level buf' bits (omega (arith, same, count)) marked before
              (λ i h n. behind i h (omega (arith, count)))
            ∙ ap (λ t. replicate 16 messagego ++ (t ++ replicate (length bits) overwrite))
                (cells-signal level (encode (b ∷ bs)) (encode-Digits (b ∷ bs))))
          ∙ messages-frame short_output quality (replicate 16 messagego)
              (replicate (length bits) overwrite) bs b (replicate-Noise 16 messagego (omega arith))
              (replicate-Noise (length bits) overwrite (omega arith)) p k m,
    )
  where
    bits : List Bool
    bits = signal (encode (b ∷ bs))

    count : length bits ≡ len_of b
    count = length-signal (encode (b ∷ bs)) ∙ length-encode (b ∷ bs) ∙ m
