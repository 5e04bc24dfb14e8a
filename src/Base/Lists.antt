-- ===== src/Base/Lists.antt =====
-- C arrays as lists measured and indexed by native numbers, under the library's names.
use Prim.Native.Nat.{ℕ, zero, suc, ◌+◌, ◌-◌, ◌≤◌, ◌<◌, min}
use mathlib.Core.Path.{◌≡◌, refl, ap, ap₂}
use mathlib.Core.List.{List, [], ◌∷◌}
use mathlib.Core.Bool.{Bool, true, false, ◌&&◌}
use native.Mathlib.Omega.{arith}
use rtlsdrwrapper.Base.Tests.{◌==◌, if◌then◌else◌, ltb, leb}

module _ {ℓ} {A : Type ℓ} where
  abbrev pub length : List A → ℕ
  length [] = 0
  length (x ∷ xs) = suc (length xs)

  abbrev pub get_or : List A → ℕ → A → A
  get_or [] i d = d
  get_or (x ∷ xs) zero d = x
  get_or (x ∷ xs) (suc i) d = get_or xs i d

  abbrev pub take : ℕ → List A → List A
  take zero xs = []
  take (suc n) [] = []
  take (suc n) (x ∷ xs) = x ∷ take n xs

  abbrev pub drop : ℕ → List A → List A
  drop zero xs = xs
  drop (suc n) [] = []
  drop (suc n) (x ∷ xs) = drop n xs

  abbrev pub replicate : ℕ → A → List A
  replicate zero a = []
  replicate (suc n) a = a ∷ replicate n a

  abbrev pub set : List A → ℕ → A → List A
  set [] i v = []
  set (x ∷ xs) zero v = v ∷ xs
  set (x ∷ xs) (suc i) v = x ∷ set xs i v

  -- `memcpy(&xs[i], val, n)` with `n` the length of `val`; what would fall behind the end is dropped.
  abbrev pub blit : List A → ℕ → List A → List A
  blit [] i val = []
  blit (x ∷ xs) zero [] = x ∷ xs
  blit (x ∷ xs) zero (v ∷ val) = v ∷ blit xs zero val
  blit (x ∷ xs) (suc i) val = x ∷ blit xs i val

  pub length-take : (n : ℕ) (xs : List A) → length (take n xs) ≡ min n (length xs)
  length-take zero xs = omega arith
  length-take (suc n) [] = omega arith
  length-take (suc n) (x ∷ xs) = omega (arith, length-take n xs)

  pub take_all : (n : ℕ) (xs : List A) → length xs ≤ n → take n xs ≡ xs
  take_all zero [] h = refl
  take_all (suc n) [] h = refl
  take_all zero (x ∷ xs) h = absurd (omega arith)
  take_all (suc n) (x ∷ xs) h = ap (λ t. x ∷ t) (take_all n xs (omega arith))

  pub length-drop : (n : ℕ) (xs : List A) → length (drop n xs) ≡ length xs - n
  length-drop zero xs = omega arith
  length-drop (suc n) [] = omega arith
  length-drop (suc n) (x ∷ xs) = omega (arith, length-drop n xs)

  pub length-set : (xs : List A) (i : ℕ) (v : A) → length (set xs i v) ≡ length xs
  length-set [] i v = refl
  length-set (x ∷ xs) zero v = refl
  length-set (x ∷ xs) (suc i) v = ap suc (length-set xs i v)

  pub length-blit : (xs : List A) (i : ℕ) (val : List A) → length (blit xs i val) ≡ length xs
  length-blit [] i val = refl
  length-blit (x ∷ xs) zero [] = refl
  length-blit (x ∷ xs) zero (v ∷ val) = ap suc (length-blit xs zero val)
  length-blit (x ∷ xs) (suc i) val = ap suc (length-blit xs i val)

  pub get_or-take :
      (n : ℕ) (xs : List A) (j : ℕ) (d : A) → j < n → get_or (take n xs) j d ≡ get_or xs j d
  get_or-take zero xs j d h = absurd (omega arith)
  get_or-take (suc n) [] j d h = refl
  get_or-take (suc n) (x ∷ xs) zero d h = refl
  get_or-take (suc n) (x ∷ xs) (suc j) d h = get_or-take n xs j d (omega arith)

  pub get_or-drop :
      (n : ℕ) (xs : List A) (j : ℕ) (d : A) → get_or (drop n xs) j d ≡ get_or xs (n + j) d
  get_or-drop zero xs j d = ap (λ k. get_or xs k d) (omega arith)
  get_or-drop (suc n) [] j d = refl
  get_or-drop (suc n) (x ∷ xs) j d = ground (arith, get_or-drop n xs j d)

  -- What a block copy that fits has copied.
  pub take-drop-blit :
      (xs : List A) (i : ℕ) (val : List A)
      → i + length val ≤ length xs
      → take (length val) (drop i (blit xs i val)) ≡ val
  take-drop-blit [] zero [] h = refl
  take-drop-blit [] (suc i) [] h = refl
  take-drop-blit [] i (v ∷ val) h = absurd (omega arith)
  take-drop-blit (x ∷ xs) zero [] h = refl
  take-drop-blit (x ∷ xs) zero (v ∷ val) h =
      ap (λ t. v ∷ t) (take-drop-blit xs zero val (omega arith))
  take-drop-blit (x ∷ xs) (suc i) val h = take-drop-blit xs i val (omega arith)

  pub get_or_ext :
      (d : A) (xs ys : List A)
      → length xs ≡ length ys
      → ((i : ℕ) → i < length xs → get_or xs i d ≡ get_or ys i d)
      → xs ≡ ys
  get_or_ext d [] [] e h = refl
  get_or_ext d [] (y ∷ ys) e h = absurd (omega arith)
  get_or_ext d (x ∷ xs) [] e h = absurd (omega arith)
  get_or_ext d (x ∷ xs) (y ∷ ys) e h =
      ap₂ ◌∷◌ (h 0 (omega arith))
        (get_or_ext d xs ys (omega arith) (λ i l. h (suc i) (omega arith)))

-- Every entry has the property.
abbrev pub All {ℓ κ} : {A : Type ℓ} → (A → Type κ) → List A → Type κ
All P [] = Unit
All P (x ∷ xs) = P x × All P xs

module _ {A : Type 0} where
  -- A block copy that fits: the new value inside, the old outside.
  pub get_or-blit :
      (xs : List A) (i : ℕ) (val : List A) (j : ℕ) (d : A)
      → i + length val ≤ length xs
      → get_or (blit xs i val) j d
        ≡ (if leb i j && ltb j (i + length val) then get_or val (j - i) d else get_or xs j d)
  get_or-blit [] i val j d h = ground arith
  get_or-blit (x ∷ xs) zero [] j d h = ground arith
  get_or-blit (x ∷ xs) zero (v ∷ val) zero d h = ground arith
  get_or-blit (x ∷ xs) zero (v ∷ val) (suc j) d h = ground (arith, get_or-blit xs zero val j d)
  get_or-blit (x ∷ xs) (suc i) val zero d h = ground arith
  get_or-blit (x ∷ xs) (suc i) val (suc j) d h = ground (arith, get_or-blit xs i val j d)

module _ {A : Type 0} where
  pub get_or-set :
      (xs : List A) (i : ℕ) (v : A) (j : ℕ) (d : A)
      → i < length xs
      → get_or (set xs i v) j d ≡ (if j == i then v else get_or xs j d)
  get_or-set [] i v j d h = absurd (omega arith)
  get_or-set (x ∷ xs) zero v zero d h = ground arith
  get_or-set (x ∷ xs) zero v (suc j) d h = ground arith
  get_or-set (x ∷ xs) (suc i) v zero d h = ground arith
  get_or-set (x ∷ xs) (suc i) v (suc j) d h = ground (arith, get_or-set xs i v j d)

-- `memcmp(xs, ys, n) == 0` on arrays of one length.
abbrev pub list_eq : List ℕ → List ℕ → Bool
list_eq [] [] = true
list_eq [] (y ∷ ys) = false
list_eq (x ∷ xs) [] = false
list_eq (x ∷ xs) (y ∷ ys) = (x == y) && list_eq xs ys

pub list_eq_sound : (xs ys : List ℕ) → list_eq xs ys ≡ true → xs ≡ ys
list_eq_sound [] [] h = refl
list_eq_sound [] (y ∷ ys) h = ground arith
list_eq_sound (x ∷ xs) [] h = ground arith
list_eq_sound (x ∷ xs) (y ∷ ys) h = ground (arith, list_eq_sound xs ys)

pub list_eq_refl : (xs : List ℕ) → list_eq xs xs ≡ true
list_eq_refl [] = refl
list_eq_refl (x ∷ xs) = ground (arith, list_eq_refl xs)
