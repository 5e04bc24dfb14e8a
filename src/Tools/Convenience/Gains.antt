-- ===== src/Tools/Convenience/Gains.antt =====
-- The gain that `nearest_gain` returns.
use rtlsdrwrapper.Base.{ℕ, ◌≤◌, ◌<◌, ◌≡◌, refl, ◌⊎◌, inl, inr, List, [], ◌∷◌, arith}
use rtlsdrwrapper.Base.{false, ltb, if_ind, ltb→lt, All}
use rtlsdrwrapper.Base.Int.{ℤ, is_negative}
use rtlsdrwrapper.Tools.Convenience.{abs_diff, nearest_of, nearest_in, nearest_gain}

abbrev Listed : ℤ → List ℤ → Type 0
Listed gain [] = ⊥
Listed gain (other ∷ gains) = (gain ≡ other) ⊎ Listed gain gains

-- No gain of the list is nearer.
abbrev IsNearest : ℤ → ℤ → List ℤ → Type 0
IsNearest target gain = All (λ other. abs_diff target gain ≤ abs_diff target other)

-- What the loop makes of the gain that it starts with.
abbrev Kept : ℤ → ℤ → List ℤ → ℤ → Type 0
Kept target nearest gains found =
    ((found ≡ nearest) ⊎ Listed found gains)
    × (abs_diff target found ≤ abs_diff target nearest)
    × IsNearest target found gains

Kept-behind :
    (target nearest gain : ℤ) (gains : List ℤ) (found : ℤ)
    → abs_diff target nearest ≤ abs_diff target gain
    → Kept target nearest gains found
    → Kept target nearest (gain ∷ gains) found
Kept-behind target nearest gain gains found h (inl e, l, a) = (inl e, l, (omega (arith, h, l), a))
Kept-behind target nearest gain gains found h (inr m, l, a) =
    (inr (inr m), l, (omega (arith, h, l), a))

nearest_of-Kept :
    (target nearest : ℤ) (gains : List ℤ)
    → Kept target nearest gains (nearest_of target nearest gains)
unfolding nearest_of
nearest_of-Kept target nearest [] = (inl refl, omega arith, tt)
nearest_of-Kept target nearest (gain ∷ gains) =
    if_ind (λ c. Kept target nearest (gain ∷ gains) (nearest_of target c gains))
      (ltb (abs_diff target gain) (abs_diff target nearest)) gain nearest
      (λ e.
        let k = nearest_of-Kept target gain gains in
        let lower : abs_diff target gain < abs_diff target nearest = ltb→lt _ _ e in
        (inr k.0, omega (arith, k.1, lower), (k.1, k.2)))
      (λ e.
        Kept-behind target nearest gain gains _ (ltb_false _ _ e)
          (nearest_of-Kept target nearest gains))
  where
    ltb_false : (a b : ℕ) → ltb a b ≡ false → b ≤ a
    ltb_false a b e = ground arith

nearest_in-IsNearest :
    (target gain : ℤ) (gains : List ℤ)
    → let found = nearest_in target (gain ∷ gains) in
      Listed found (gain ∷ gains) × IsNearest target found (gain ∷ gains)
nearest_in-IsNearest target gain gains =
    let (m, l, a) = nearest_of-Kept target gain (gain ∷ gains) in (listed m, a)
  where
    listed :
        {found : ℤ} → (found ≡ gain) ⊎ Listed found (gain ∷ gains) → Listed found (gain ∷ gains)
    listed (inl e) = inl e
    listed (inr l) = l

-- Where the gain mode can be set and gains are listed, the gain returned is on the list, and no other
-- is nearer to the target.
nearest_gain-IsNearest :
    {S : Type 0} (set_mode : S → ℤ × S) (gains : S → List ℤ) (target : ℤ) (s : S) (gain : ℤ)
    (rest : List ℤ)
    → is_negative (set_mode s).0 ≡ false
    → gains (set_mode s).1 ≡ gain ∷ rest
    → let found = (nearest_gain set_mode gains target s).0 in
      Listed found (gains (set_mode s).1) × IsNearest target found (gains (set_mode s).1)
unfolding nearest_gain
nearest_gain-IsNearest set_mode gains target s gain rest fine e =
    rw (fine, e) (nearest_in-IsNearest target gain rest)
