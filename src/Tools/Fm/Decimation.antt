-- ===== src/Tools/Fm/Decimation.antt =====
-- `low_pass` adds up blocks of samples, however they are cut into buffers.
use rtlsdrwrapper.Base.{ℕ, suc, ◌+◌, ◌<◌, ◌≡◌, refl, ap, ◌∙◌, List, [], ◌∷◌, ◌++◌, arith}
use rtlsdrwrapper.Base.{true, false, ltb, Bool-cases, inl, inr, length, All}
use rtlsdrwrapper.Base.{◌*◌, subst}
use rtlsdrwrapper.Base.Int.{ℤ, ◌≤ℤ◌, pos, ◌+ℤ◌, int_laws}
use rtlsdrwrapper.Tools.Fm.{Sample, LowPass, reset, add_sample, low_pass, i16}

-- Two buffers one after the other.
abbrev pub then_more : ℕ → List Sample × LowPass → List Sample → List Sample × LowPass
then_more downsample (out, d) ys =
    let (more, last) = low_pass downsample d ys in (out ++ more, last)

abbrev pub output : LowPass → Sample
output d = (i16 d.now_r, i16 d.now_j)

-- Cutting a signal into two buffers changes nothing.
low_pass-++ :
    (downsample : ℕ) (d : LowPass) (xs ys : List Sample)
    → low_pass downsample d (xs ++ ys) ≡ then_more downsample (low_pass downsample d xs) ys
unfolding low_pass
low_pass-++ downsample d [] ys = refl
low_pass-++ downsample d (x ∷ xs) ys = elim (Bool-cases (ltb (d.prev_index + 1) downsample)) [
  | inl e ↦ rw e (low_pass-++ downsample (add_sample x d) xs ys)
  | inr e ↦ rw e (
      ap (λ (r : List Sample × LowPass). (output (add_sample x d) ∷ r.0, r.1))
        (low_pass-++ downsample reset xs ys))
]

-- The sum of samples in front of an accumulator.
abbrev pub sum_from : LowPass → List Sample → LowPass
sum_from d [] = d
sum_from d (x ∷ xs) = sum_from (add_sample x d) xs

-- A block that fills the sum is one sample of output.
low_pass-block :
    (downsample : ℕ) (d : LowPass) (x : Sample) (xs : List Sample)
    → d.prev_index + suc (length xs) ≡ downsample
    → low_pass downsample d (x ∷ xs) ≡ (output (sum_from d (x ∷ xs)) ∷ [], reset)
unfolding low_pass
low_pass-block downsample d x [] h =
    let e : ltb (d.prev_index + 1) downsample ≡ false = ground arith in rw e refl
low_pass-block downsample d x (y ∷ xs) h =
    let e : ltb (d.prev_index + 1) downsample ≡ true = ground arith in
    rw e (low_pass-block downsample (add_sample x d) y xs (omega arith))

abbrev pub concat : List (List Sample) → List Sample
concat [] = []
concat (block ∷ blocks) = block ++ concat blocks

-- The sum of one component of the samples of a block.
abbrev pub total : (Sample → ℤ) → List Sample → ℤ
total part [] = pos 0
total part (x ∷ xs) = part x +ℤ total part xs

-- The two components of a sample.
abbrev pub real_part : Sample → ℤ
real_part (r, j) = r

abbrev pub imaginary_part : Sample → ℤ
imaginary_part (r, j) = j

-- Each block's sums of the two components, in 16 bits.
abbrev pub sums : List (List Sample) → List Sample
sums [] = []
sums (block ∷ blocks) =
    (i16 (total real_part block), i16 (total imaginary_part block)) ∷ sums blocks

sum_from-total :
    (d : LowPass) (xs : List Sample)
    → ((sum_from d xs).now_r ≡ d.now_r +ℤ total real_part xs)
      × ((sum_from d xs).now_j ≡ d.now_j +ℤ total imaginary_part xs)
sum_from-total d [] = (omega int_laws, omega int_laws)
sum_from-total d (x ∷ xs) =
    let (r, j) = sum_from-total (add_sample x d) xs in (r ∙ omega int_laws, j ∙ omega int_laws)

output-sum_from :
    (block : List Sample)
    → output (sum_from reset block)
      ≡ (i16 (total real_part block), i16 (total imaginary_part block))
output-sum_from block =
    let (r, j) = sum_from-total reset block in
    let r' : (sum_from reset block).now_r ≡ total real_part block = r ∙ omega int_laws in
    let j' : (sum_from reset block).now_j ≡ total imaginary_part block = j ∙ omega int_laws in
    rw (r', j') refl

-- A number of at most `n` on either side of 0.
abbrev Within : ℕ → ℤ → Type 0
Within n z = (z ≤ℤ pos n) × (pos 0 ≤ℤ z +ℤ pos n)

abbrev WithinBoth : ℕ → ℤ → ℤ → Type 0
WithinBoth n r j = Within n r × Within n j

Within-add : (n m : ℕ) (z x : ℤ) → Within n z → Within m x → Within (n + m) (z +ℤ x)
Within-add n m z x h k = omega (int_laws, h.0, h.1, k.0, k.1)

-- The sums of samples from 8 bits, which are at most 128 on either side of 0, stay at most 128 times
-- their number there.
sum_from-Within :
    (d : LowPass) (xs : List Sample)
    → WithinBoth (128 * d.prev_index) d.now_r d.now_j
    → All (λ (x : Sample). WithinBoth 128 (real_part x) (imaginary_part x)) xs
    → WithinBoth (128 * (sum_from d xs).prev_index) (sum_from d xs).now_r (sum_from d xs).now_j
sum_from-Within d [] h l = h
sum_from-Within d (x ∷ xs) h l =
    let next : 128 * d.prev_index + 128 ≡ 128 * (d.prev_index + 1) = omega arith in
    sum_from-Within (add_sample x d) xs
      (subst (λ n. WithinBoth n (add_sample x d).now_r (add_sample x d).now_j) next
        (
          Within-add (128 * d.prev_index) 128 d.now_r (real_part x) h.0 l.0.0,
          Within-add (128 * d.prev_index) 128 d.now_j (imaginary_part x) h.1 l.0.1,
        ))
      l.1

-- For a signal of blocks of as many samples as the factor, which is positive, the output is the sum of
-- each block's real parts and that of its imaginary parts, cut to 16 bits, and nothing is left over.
pub low_pass-blocks :
    (downsample : ℕ) (blocks : List (List Sample))
    → 0 < downsample
    → All (λ block. length block ≡ downsample) blocks
    → low_pass downsample reset (concat blocks) ≡ (sums blocks, reset)
unfolding low_pass
low_pass-blocks downsample [] h l = refl
low_pass-blocks downsample ([] ∷ blocks) h l = absurd (omega (arith, l.0))
low_pass-blocks downsample ((x ∷ block) ∷ blocks) h l =
    low_pass-++ downsample reset (x ∷ block) (concat blocks)
    ∙ ap (λ r. then_more downsample r (concat blocks))
        (low_pass-block downsample reset x block (omega (arith, l.0)))
    ∙ ap (λ (r : List Sample × LowPass). (output (sum_from reset (x ∷ block)) ∷ r.0, r.1))
        (low_pass-blocks downsample blocks h l.1)
    ∙ ap (λ (y : Sample). (y ∷ sums blocks, reset)) (output-sum_from (x ∷ block))
