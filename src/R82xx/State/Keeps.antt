-- ===== src/R82xx/State/Keeps.antt =====
-- Total correctness of a command: it returns, and if it succeeds it keeps a predicate. One rule for
-- each way to build a command.
use rtlsdrwrapper.Base.{ℕ, Bool, true, false, ◌≡◌, ◌≢◌, refl, if◌then◌else◌}
use rtlsdrwrapper.R82xx.State.{Priv, Driver, Result, ok, err, diverges}
use rtlsdrwrapper.R82xx.State.{pure, raise, lift, gets, modify, continue, finally, ◌>>=◌}

-- The call returns, and `T` holds if its result is no error.
abbrev pub OnOk : {A : Type 0} → Result A → Type 0 → Type 0
OnOk (ok a) T = T
OnOk (err n) T = Unit
OnOk diverges T = ⊥

pub OnOk-map : {A T U : Type 0} (r : Result A) → (T → U) → OnOk r T → OnOk r U
OnOk-map (ok a) f h = f h
OnOk-map (err n) f h = tt
OnOk-map diverges f h = h

pub OnOk-if :
    {S A : Type 0} (P : Priv S → Type 0) (t : Bool) (x y : Result A × Priv S)
    → (t ≡ true → OnOk x.0 (P x.1))
    → (t ≡ false → OnOk y.0 (P y.1))
    → OnOk (if t then x else y).0 (P (if t then x else y).1)
OnOk-if P true x y hx hy = hx refl
OnOk-if P false x y hx hy = hy refl

pub record Keeps {S A : Type 0} (P : Priv S → Type 0) (m : Driver S A) : Type 0 where
  pub at : (s : Priv S) → P s → OnOk (m s).0 (P (m s).1)

module _ {S A : Type 0} {P : Priv S → Type 0} where
  pub Keeps-pure : (a : A) → Keeps P (pure a)
  unfolding pure
  Keeps-pure a = record { at = λ s h. h }

  pub Keeps-raise : (n : ℕ) → Keeps P (raise {A = A} n)
  unfolding raise
  Keeps-raise n = record { at = λ s h. tt }

  pub Keeps-gets : (f : Priv S → A) → Keeps P (gets f)
  unfolding gets
  Keeps-gets f = record { at = λ s h. h }

  pub Keeps-lift : (r : Result A) → r ≢ diverges → Keeps P (lift r)
  unfolding lift
  Keeps-lift (ok a) e = record { at = λ s h. h }
  Keeps-lift (err n) e = record { at = λ s h. tt }
  Keeps-lift diverges e = absurd (e refl)

  pub Keeps-if :
      (t : Bool) (m n : Driver S A) → Keeps P m → Keeps P n → Keeps P (if t then m else n)
  Keeps-if true m n km kn = km
  Keeps-if false m n km kn = kn

module _ {S : Type 0} {P : Priv S → Type 0} where
  pub Keeps-modify : (f : Priv S → Priv S) → ((s : Priv S) → P s → P (f s)) → Keeps P (modify f)
  unfolding modify
  Keeps-modify f h = record { at = h }

module _ {S A B : Type 0} {P : Priv S → Type 0} where
  -- The rest of the block may use the value that was lifted.
  pub Keeps-bind-lift :
      (r : Result A) (next : A → Driver S B)
      → r ≢ diverges
      → ((x : A) → r ≡ ok x → Keeps P (next x))
      → Keeps P (lift r >>= next)
  unfolding ◌>>=◌
  Keeps-bind-lift (ok x) next e rest = record { at = λ s start. (rest x refl).at s start }
  Keeps-bind-lift (err n) next e rest = record { at = λ s start. tt }
  Keeps-bind-lift diverges next e rest = absurd (e refl)

  pub OnOk-continue :
      (r : Result A) (f : A → Driver S B) (s : Priv S)
      → OnOk r (P s)
      → ((a : A) → Keeps P (f a))
      → OnOk (continue r f s).0 (P (continue r f s).1)
  OnOk-continue (ok a) f s h k = (k a).at s h
  OnOk-continue (err n) f s h k = tt
  OnOk-continue diverges f s h k = h

  pub Keeps-bind :
      (first : Driver S A) (next : A → Driver S B)
      → Keeps P first
      → ((x : A) → Keeps P (next x))
      → Keeps P (first >>= next)
  unfolding ◌>>=◌
  Keeps-bind first next kept rest = record {
    at = λ s start. OnOk-continue (first s).0 next (first s).1 (kept.at s start) rest;
  }

module _ {S : Type 0} {P : Priv S → Type 0} where
  pub Keeps-finally :
      (m : Driver S (Unit {0})) (f : Priv S → Priv S)
      → Keeps P m
      → ((s : Priv S) → P s → P (f s))
      → Keeps P (finally m f)
  unfolding finally
  Keeps-finally m f km kf = record { at = λ s h. OnOk-map (m s).0 (kf (m s).1) (km.at s h) }

pub ruleset keeps_rules = (Keeps-pure, Keeps-raise, Keeps-gets, Keeps-if, Keeps-bind)
