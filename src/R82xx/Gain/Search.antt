-- ===== src/R82xx/Gain/Search.antt =====
-- The gain search takes the first of the alternating LNA and mixer steps that reaches the gain.
use rtlsdrwrapper.Base.{
  ℕ, zero, suc, ◌+◌, ◌-◌, ◌≤◌, ◌≡◌, ◌⊎◌, inl, inr, refl, ◌∙◌, sym, ap, arith, true, false,
}
use rtlsdrwrapper.Base.{List, get_or, if_ind}
use native.Mathlib.Numerals.{add-one}
use rtlsdrwrapper.Base.Int.{ℤ, pos, ◌+ℤ◌, leb_ℤ, int_laws}
use rtlsdrwrapper.R82xx.Gain.{GainIndex, lna_gain_steps, mixer_gain_steps, gain_search, find_gain}

-- The sum of the steps with index 1 to `n`.
pub partial : List ℤ → ℕ → ℤ
partial steps zero = pos 0
partial steps (suc n) = partial steps n +ℤ get_or steps (suc n) (pos 0)

abbrev pub gain_at : ℕ → ℕ → ℤ
gain_at lna mix = partial lna_gain_steps lna +ℤ partial mixer_gain_steps mix

-- The index pair behind the step before: mixer steps follow LNA steps.
abbrev pub Insufficient : ℤ → ℕ → ℕ → Type 0
Insufficient gain lna mix = leb_ℤ gain (gain_at lna mix) ≡ false

pub record IsChosen (gain : ℤ) (g : GainIndex) : Type 0 where
  -- The total is that of the indices.
  pub total : g.total_gain ≡ gain_at g.lna_index g.mix_index
  -- The steps alternate, and the indices fit their tables and four bits.
  pub alternate : (g.mix_index ≤ g.lna_index) × (g.lna_index ≤ g.mix_index + 1)
  pub bounded : g.lna_index ≤ 15
  -- The gain is reached, or both indices are at their end.
  pub enough : (leb_ℤ gain g.total_gain ≡ true) ⊎ ((g.lna_index ≡ 15) × (g.mix_index ≡ 15))
  -- One step less would not reach it.
  pub least :
      (g.lna_index ≡ 0)
      ⊎ (((g.lna_index ≡ g.mix_index) × Insufficient gain g.lna_index (g.mix_index - 1))
          ⊎ ((g.lna_index ≡ g.mix_index + 1) × Insufficient gain (g.lna_index - 1) g.mix_index))

regroup : (a b c : ℤ) → a +ℤ b +ℤ c ≡ a +ℤ c +ℤ b
regroup a b c = omega int_laws

reassociate : (a b c : ℤ) → a +ℤ b +ℤ c ≡ a +ℤ (b +ℤ c)
reassociate a b c = omega int_laws

-- The total of the code after an LNA step, and after the mixer step behind it.
lna_total : (r : ℕ) → gain_at r r +ℤ get_or lna_gain_steps (r + 1) (pos 0) ≡ gain_at (r + 1) r
unfolding partial
lna_total r = rw (add-one r) (
    regroup (partial lna_gain_steps r) (partial mixer_gain_steps r)
      (get_or lna_gain_steps (suc r) (pos 0)))

mixer_total :
    (r : ℕ) → gain_at (r + 1) r +ℤ get_or mixer_gain_steps (r + 1) (pos 0) ≡ gain_at (r + 1) (r + 1)
unfolding partial
mixer_total r = rw (add-one r) (
    reassociate (partial lna_gain_steps (suc r)) (partial mixer_gain_steps r)
      (get_or mixer_gain_steps (suc r) (pos 0)))

abbrev indices : ℕ → ℕ → ℤ → GainIndex
indices lna mix total = record { lna_index = lna; mix_index = mix; total_gain = total }

even_least :
    (gain : ℤ) (r : ℕ)
    → (r ≡ 0) ⊎ Insufficient gain r (r - 1)
    → (r ≡ 0)
      ⊎ (((r ≡ r) × Insufficient gain r (r - 1)) ⊎ ((r ≡ r + 1) × Insufficient gain (r - 1) r))
even_least gain r (inl z) = inl z
even_least gain r (inr h) = inr (inl (refl, h))

IsChosen-even :
    (gain : ℤ) (r : ℕ) (t : ℤ)
    → t ≡ gain_at r r
    → r ≤ 15
    → (r ≡ 0) ⊎ Insufficient gain r (r - 1)
    → (leb_ℤ gain t ≡ true) ⊎ ((r ≡ 15) × (r ≡ 15))
    → IsChosen gain (indices r r t)
IsChosen-even gain r t same le h done = record {
  total = same;
  alternate = omega arith;
  bounded = le;
  enough = done;
  least = even_least gain r h;
}

IsChosen-odd :
    (gain : ℤ) (r : ℕ) (t : ℤ)
    → t ≡ gain_at (r + 1) r
    → r + 1 ≤ 15
    → Insufficient gain r r
    → leb_ℤ gain t ≡ true
    → IsChosen gain (indices (r + 1) r t)
IsChosen-odd gain r t same le h done = record {
  total = same;
  alternate = omega arith;
  bounded = le;
  enough = inl done;
  least = inr (inr (refl, ap (λ k. leb_ℤ gain (gain_at k r)) (omega arith) ∙ h));
}

search-IsChosen :
    (rounds r : ℕ) (gain t : ℤ)
    → t ≡ gain_at r r
    → r + rounds ≡ 15
    → (r ≡ 0) ⊎ Insufficient gain r (r - 1)
    → IsChosen gain (gain_search rounds gain (indices r r t))
unfolding gain_search
search-IsChosen zero r gain t same e h =
    IsChosen-even gain r t same (omega arith) h (inr (omega arith))
search-IsChosen (suc rounds) r gain t same e h =
    if_ind (IsChosen gain) (leb_ℤ gain t) (indices r r t) _
      (λ reached. IsChosen-even gain r t same (omega arith) h (inl reached))
      (λ below.
        if_ind (IsChosen gain) (leb_ℤ gain t') (indices (r + 1) r t') _
          (λ reached.
            IsChosen-odd gain r t' same' (omega arith) (ap (leb_ℤ gain) (sym same) ∙ below) reached)
          (λ below'.
            search-IsChosen rounds (r + 1) gain _
              (ap (λ x. x +ℤ get_or mixer_gain_steps (r + 1) (pos 0)) same' ∙ mixer_total r)
              (omega arith)
              (inr (
                ap (λ k. leb_ℤ gain (gain_at (r + 1) k)) (omega arith)
                ∙ ap (leb_ℤ gain) (sym same')
                ∙ below'))))
  where
    t' : ℤ
    t' = t +ℤ get_or lna_gain_steps (r + 1) (pos 0)

    same' : t' ≡ gain_at (r + 1) r
    same' = ap (λ x. x +ℤ get_or lna_gain_steps (r + 1) (pos 0)) same ∙ lna_total r

-- For every gain the indices stand for steps whose total reaches it where one step less would not,
-- or are both 15 where no total does.
pub find_gain-IsChosen : (gain : ℤ) → IsChosen gain (find_gain gain)
unfolding find_gain partial
find_gain-IsChosen gain = search-IsChosen 15 0 gain (pos 0) refl refl (inl refl)
