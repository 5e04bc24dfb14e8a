-- ===== src/Rtl/Fir/Laws.antt =====
-- The coefficients are read back from the packed bytes.
use rtlsdrwrapper.Base.{ℕ, ◌+◌, ◌*◌, ◌/◌, ◌%◌, ◌^◌, ◌≡◌, refl, ap, ap₂, ◌∙◌, arith, true}
use rtlsdrwrapper.Base.{List, [], ◌∷◌, ◌++◌, Option, some, u8, u32, bit_and, bit_or, ◌<<<◌, ◌>>>◌}
use rtlsdrwrapper.Base.Bits.{bit_and_low, bit_or_fields}
use rtlsdrwrapper.Base.Int.{ℤ, pos, negsuc}
use rtlsdrwrapper.Base.Words.{to_word, of_word}
use rtlsdrwrapper.Rtl.Fir.{in_range, pack8, pack_pair, pack12}

-- What the demodulator makes of the bytes.
abbrev pub unpack8 : List ℕ → List ℤ
unpack8 [] = []
unpack8 (byte ∷ bytes) = of_word 8 byte ∷ unpack8 bytes

abbrev pub unpack12 : List ℕ → List ℤ
unpack12 (x ∷ y ∷ z ∷ bytes) =
    of_word 12 (16 * x + y / 16) ∷ of_word 12 (256 * (y % 16) + z) ∷ unpack12 bytes
unpack12 _ = []

middle :
    (a b : ℕ) → u8 (bit_or (u32 (a <<< 4)) (bit_and (b >>> 8) 0x0f)) ≡ 16 * (a % 16) + b / 256 % 16
middle a b =
    let shifted : u32 (a <<< 4) ≡ (a % 2 ^ 28) <<< 4 = omega arith in
    let low : bit_and (b >>> 8) 0x0f ≡ b / 256 % 16 = bit_and_low 4 (b >>> 8) in
    rw (shifted, low, bit_or_fields 4 (a % 2 ^ 28) (b / 256 % 16) (omega arith)) (omega arith)

sign8 : (v : ℤ) → in_range 127 v ≡ true → of_word 8 (u8 (to_word 32 v)) ≡ v
sign8 (pos n) h = ground arith
sign8 (negsuc n) h = ground arith

sign12 : (v : ℤ) → in_range 2047 v ≡ true → of_word 12 (to_word 32 v % 4096) ≡ v
sign12 (pos n) h = ground arith
sign12 (negsuc n) h = ground arith

pair_words :
    (a b : ℕ) (bytes : List ℕ)
    → unpack12 (u8 (a >>> 4) ∷ (16 * (a % 16) + b / 256 % 16) ∷ u8 b ∷ bytes)
      ≡ of_word 12 (a % 4096) ∷ of_word 12 (b % 4096) ∷ unpack12 bytes
pair_words a b bytes =
    let e0 : 16 * u8 (a >>> 4) + (16 * (a % 16) + b / 256 % 16) / 16 ≡ a % 4096 = omega arith in
    let e1 : 256 * ((16 * (a % 16) + b / 256 % 16) % 16) + u8 b ≡ b % 4096 = omega arith in
    rw (e0, e1) refl

unpack12-pair :
    (v w : ℤ) (bytes : List ℕ)
    → in_range 2047 v ≡ true
    → in_range 2047 w ≡ true
    → unpack12 (pack_pair v w ++ bytes) ≡ v ∷ w ∷ unpack12 bytes
unfolding pack_pair
unpack12-pair v w bytes hv hw =
    rw (middle (to_word 32 v) (to_word 32 w), pair_words (to_word 32 v) (to_word 32 w) bytes)
      (ap₂ (λ x y. x ∷ y ∷ unpack12 bytes) (sign12 v hv) (sign12 w hw))

-- All coefficients are in the range of their width.
abbrev pub AllInRange : ℕ → List ℤ → Type 0
AllInRange limit [] = Unit
AllInRange limit (v ∷ vs) = (in_range limit v ≡ true) × AllInRange limit vs

-- The bytes of a packing that exists, and what they stand for.
abbrev pub Packs : Option (List ℕ) → (List ℕ → List ℤ) → List ℤ → Type 0
Packs packed unpack vals = (bytes : List ℕ) × (packed ≡ some bytes) × (unpack bytes ≡ vals)

-- Coefficients that fit eight bits are packed, and read back from their bytes.
pub pack8-unpack8 : (vals : List ℤ) → AllInRange 127 vals → Packs (pack8 vals) unpack8 vals
unfolding pack8
pack8-unpack8 [] h = ([], refl, refl)
pack8-unpack8 (v ∷ vs) h =
    let (bytes, e, back) = pack8-unpack8 vs h.1 in
    (u8 (to_word 32 v) ∷ bytes, rw (h.0, e) refl, ap₂ ◌∷◌ (sign8 v h.0) back)

abbrev pub IsEven : List ℤ → Type 0
IsEven [] = Unit
IsEven (x ∷ []) = ⊥
IsEven (x ∷ y ∷ rest) = IsEven rest

-- An even number of coefficients that fit twelve bits is packed, two into three bytes, and read back.
pub pack12-unpack12 :
    (vals : List ℤ) → IsEven vals → AllInRange 2047 vals → Packs (pack12 vals) unpack12 vals
unfolding pack12
pack12-unpack12 [] even h = ([], refl, refl)
pack12-unpack12 (v ∷ []) even h = elim even [ ]
pack12-unpack12 (v ∷ w ∷ vs) even h =
    let (bytes, e, back) = pack12-unpack12 vs even h.1.1 in
    (
      pack_pair v w ++ bytes,
      rw (h.0, h.1.0, e) refl,
      unpack12-pair v w bytes h.0 h.1.0 ∙ ap (λ t. v ∷ w ∷ t) back,
    )
