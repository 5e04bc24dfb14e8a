-- ===== src/Tools/Fm/Rotation.antt =====
-- `rotate_90` turns the signal by a quarter turn more at each sample.
use rtlsdrwrapper.Base.{ℕ, zero, suc, ◌*◌, ◌%◌, ◌<◌, ◌≡◌, refl, List, [], ◌∷◌, arith}
use rtlsdrwrapper.Base.{All, length, sub_u8}
use rtlsdrwrapper.Base.Int.{ℤ, sub_ℕ}
use rtlsdrwrapper.Tools.Fm.{Sample, negate, rotate_90}

-- Twice the value that a byte stands for: 0 lies between 127 and 128.
abbrev pub value : ℕ → ℤ
value b = sub_ℕ (2 * b) 255

abbrev pub complex_samples : List ℕ → List Sample
complex_samples [] = []
complex_samples (i ∷ []) = []
complex_samples (i ∷ q ∷ buf) = (value i, value q) ∷ complex_samples buf

-- Multiplication by the imaginary unit.
abbrev pub quarter_turn : Sample → Sample
quarter_turn (r, j) = (negate j, r)

abbrev pub turned : ℕ → Sample → Sample
turned zero s = s
turned (suc n) s = quarter_turn (turned n s)

-- Sample `k` turned by `k` quarters, four of which are none.
abbrev pub turning : List Sample → List Sample
turning (a ∷ b ∷ c ∷ d ∷ s) = a ∷ turned 1 b ∷ turned 2 c ∷ turned 3 d ∷ turning s
turning s = s

negated : (b : ℕ) → b < 256 → value (sub_u8 255 b) ≡ negate (value b)
negated b h = ground arith

twice : (b : ℕ) → negate (negate (value b)) ≡ value b
twice b = ground arith

-- On bytes of whole groups of four samples, sample `k` is multiplied by the `k`-th power of the imaginary
-- unit, a byte standing for its distance from 127.5.
pub rotate_90-turning :
    (buf : List ℕ)
    → All (λ b. b < 256) buf
    → length buf % 8 ≡ 0
    → complex_samples (rotate_90 buf) ≡ turning (complex_samples buf)
unfolding rotate_90
rotate_90-turning [] h l = refl
rotate_90-turning (b0 ∷ b1 ∷ b2 ∷ b3 ∷ b4 ∷ b5 ∷ b6 ∷ b7 ∷ buf)
      (h0, (h1, (h2, (h3, (h4, (h5, (h6, (h7, rest)))))))) l =
    rw
      (
        negated b3 h3,
        negated b4 h4,
        negated b5 h5,
        negated b6 h6,
        twice b7,
        rotate_90-turning buf rest (omega arith),
      )
      refl
rotate_90-turning (b0 ∷ []) h l = absurd (omega arith)
rotate_90-turning (b0 ∷ b1 ∷ []) h l = absurd (omega arith)
rotate_90-turning (b0 ∷ b1 ∷ b2 ∷ []) h l = absurd (omega arith)
rotate_90-turning (b0 ∷ b1 ∷ b2 ∷ b3 ∷ []) h l = absurd (omega arith)
rotate_90-turning (b0 ∷ b1 ∷ b2 ∷ b3 ∷ b4 ∷ []) h l = absurd (omega arith)
rotate_90-turning (b0 ∷ b1 ∷ b2 ∷ b3 ∷ b4 ∷ b5 ∷ []) h l = absurd (omega arith)
rotate_90-turning (b0 ∷ b1 ∷ b2 ∷ b3 ∷ b4 ∷ b5 ∷ b6 ∷ []) h l = absurd (omega arith)
