-- ===== src/E4k/Filter/Nearest.antt =====
-- The search finds the nearest entry of its table.
use rtlsdrwrapper.Base.{ℕ, suc, ◌+◌, ◌≤◌, ◌<◌, ◌≡◌, ◌⊎◌, inl, inr, refl, arith}
use rtlsdrwrapper.Base.{List, [], ◌∷◌, length, get_or, take, ltb, Bool-cases, All}
use rtlsdrwrapper.E4k.Filter.{unsigned_delta, closest_from, closest_arr_idx}

-- The entry at `i` is at least as near to `freq` as every other, and nearer than those before it.
pub record IsNearest (freq : ℕ) (arr : List ℕ) (i : ℕ) : Type 0 where
  pub inside : i < length arr
  pub least : All (λ a. unsigned_delta freq (get_or arr i 0) ≤ unsigned_delta freq a) arr
  pub first : All (λ a. unsigned_delta freq (get_or arr i 0) < unsigned_delta freq a) (take i arr)

-- What the rest of the loop does to the best delta so far: nothing, or it finds a smaller one.
abbrev Outcome : ℕ → List ℕ → ℕ → ℕ → ℕ → ℕ → Type 0
Outcome freq arr i best bi res =
    ((res ≡ bi) × All (λ a. best ≤ unsigned_delta freq a) arr)
    ⊎ ((k : ℕ) × (res ≡ i + k)
        × (unsigned_delta freq (get_or arr k 0) < best)
        × IsNearest freq arr k)

weaken :
    (m n freq : ℕ) (arr : List ℕ)
    → m ≤ n
    → All (λ a. n ≤ unsigned_delta freq a) arr
    → All (λ a. m ≤ unsigned_delta freq a) arr
weaken m n freq [] h p = tt
weaken m n freq (a ∷ arr) h p = (omega (arith, p.0), weaken m n freq arr h p.1)

closer :
    (freq a i best bi res : ℕ) (arr : List ℕ)
    → unsigned_delta freq a < best
    → Outcome freq arr (i + 1) (unsigned_delta freq a) i res
    → Outcome freq (a ∷ arr) i best bi res
closer freq a i best bi res arr h (inl (same, rest)) = inr (
  0,
  omega (arith, same),
  h,
  record { inside = omega arith; least = (omega arith, rest); first = tt },
)
closer freq a i best bi res arr h (inr (k, at, below, near)) = inr (
  suc k,
  omega (arith, at),
  omega (arith, below, h),
  record {
    inside = omega (arith, near.inside);
    least = (omega (arith, below), near.least);
    first = (below, near.first);
  },
)

farther :
    (freq a i best bi res : ℕ) (arr : List ℕ)
    → best ≤ unsigned_delta freq a
    → Outcome freq arr (i + 1) best bi res
    → Outcome freq (a ∷ arr) i best bi res
farther freq a i best bi res arr h (inl (same, rest)) = inl (same, (h, rest))
farther freq a i best bi res arr h (inr (k, at, below, near)) = inr (
  suc k,
  omega (arith, at),
  below,
  record {
    inside = omega (arith, near.inside);
    least = (omega (arith, below, h), near.least);
    first = (omega (arith, below, h), near.first);
  },
)

closest_from_lem :
    (freq : ℕ) (arr : List ℕ) (i best bi : ℕ)
    → Outcome freq arr i best bi (closest_from freq arr i best bi)
unfolding closest_from
closest_from_lem freq [] i best bi = inl (refl, tt)
closest_from_lem freq (a ∷ arr) i best bi = elim (Bool-cases (ltb (unsigned_delta freq a) best)) [
  | inl e ↦ rw e (
      closer freq a i best bi _ arr (ground arith)
        (closest_from_lem freq arr (i + 1) (unsigned_delta freq a) i))
  | inr e ↦
      rw e
        (farther freq a i best bi _ arr (ground arith) (closest_from_lem freq arr (i + 1) best bi))
]

small_delta : (freq a : ℕ) → freq ≤ 0xffffffff → a ≤ 0xffffffff → unsigned_delta freq a ≤ 0xffffffff
small_delta freq a h p = ground arith

pub closest_arr_idx-IsNearest :
    (freq a : ℕ) (arr : List ℕ)
    → freq ≤ 0xffffffff
    → a ≤ 0xffffffff
    → All (λ x. x ≤ 0xffffffff) arr
    → IsNearest freq (a ∷ arr) (closest_arr_idx (a ∷ arr) freq)
unfolding closest_arr_idx
closest_arr_idx-IsNearest freq a arr h p ps = found (closest_from_lem freq (a ∷ arr) 0 0xffffffff 0)
  where
    found :
        Outcome freq (a ∷ arr) 0 0xffffffff 0 (closest_from freq (a ∷ arr) 0 0xffffffff 0)
        → IsNearest freq (a ∷ arr) (closest_from freq (a ∷ arr) 0 0xffffffff 0)
    found (inl (same, rest)) = rw same (record {
      inside = omega arith;
      least =
          weaken (unsigned_delta freq a) 0xffffffff freq (a ∷ arr) (small_delta freq a h p) rest;
      first = tt;
    })
    found (inr (k, at, below, near)) =
        let e : closest_from freq (a ∷ arr) 0 0xffffffff 0 ≡ k = omega (arith, at) in rw e near
