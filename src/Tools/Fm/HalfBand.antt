-- ===== src/Tools/Fm/HalfBand.antt =====
-- `fifth_order` of rtl_fm.c, on one of the two interleaved channels. The
-- buffer is not empty.
use rtlsdrwrapper.Base.{ℕ, ◌/◌, ◌%◌, ◌^◌, ◌≡◌, refl, ap, List, [], ◌∷◌, ◌++◌, arith}
use rtlsdrwrapper.Base.{length}
use rtlsdrwrapper.Base.Int.{ℤ, pos, negsuc, ◌+ℤ◌, ◌*ℤ◌}
use rtlsdrwrapper.Tools.Fm.{i16}

-- `n >> k`, which rounds down.
abbrev shift_right : ℤ → ℕ → ℤ
shift_right (pos n) k = pos (n / 2 ^ k)
shift_right (negsuc n) k = negsuc (n / 2 ^ k)

-- The array `hist` from `a` to `f`.
pub record Hist : Type 0 where
  pub a : ℤ
  pub b : ℤ
  pub c : ℤ
  pub d : ℤ
  pub e : ℤ
  pub f : ℤ

abbrev fifth_sum : Hist → ℤ
fifth_sum h = i16 (shift_right (h.a +ℤ (h.b +ℤ h.e) *ℤ pos 5 +ℤ (h.c +ℤ h.d) *ℤ pos 10 +ℤ h.f) 4)

abbrev shifted : ℤ → ℤ → Hist → Hist
shifted x y h = record { a = h.c; b = h.d; c = h.e; d = h.f; e = x; f = y }

-- The loop: two samples for one of output.
pub fifth_loop : Hist → List ℤ → List ℤ × Hist
fifth_loop h (x ∷ y ∷ samples) =
    let h' = shifted x y h in let (out, last) = fifth_loop h' samples in (fifth_sum h' ∷ out, last)
fifth_loop h samples = ([], h)

abbrev moved_on : Hist → ℤ → Hist
moved_on hist x = record { a = hist.b; b = hist.c; c = hist.d; d = hist.e; e = hist.f; f = x }

-- The first sample meets the history moved on by one.
pub fifth_order : Hist → List ℤ → List ℤ × Hist
unfolding fifth_loop
fifth_order hist [] = ([], hist)
fifth_order hist (x ∷ samples) =
    let h = moved_on hist x in let (out, last) = fifth_loop h samples in (fifth_sum h ∷ out, last)

fifth_loop-last :
    (h : Hist) (samples : List ℤ) (x y : ℤ)
    → length samples % 2 ≡ 0
    → fifth_loop h (samples ++ (x ∷ [])) ≡ fifth_loop h (samples ++ (y ∷ []))
unfolding fifth_loop
fifth_loop-last h [] x y e = refl
fifth_loop-last h (z ∷ []) x y e = absurd (omega arith)
fifth_loop-last h (z ∷ w ∷ samples) x y e =
    ap (λ (r : List ℤ × Hist). (fifth_sum (shifted z w h) ∷ r.0, r.1))
      (fifth_loop-last (shifted z w h) samples x y (omega arith))

-- The last sample of a buffer with an even number of samples has no influence, neither on the output
-- nor on the history for the next buffer.
pub fifth_order-last :
    (hist : Hist) (samples : List ℤ) (x y : ℤ)
    → length samples % 2 ≡ 1
    → fifth_order hist (samples ++ (x ∷ [])) ≡ fifth_order hist (samples ++ (y ∷ []))
unfolding fifth_order
fifth_order-last hist [] x y e = absurd (omega arith)
fifth_order-last hist (z ∷ samples) x y e =
    ap (λ (r : List ℤ × Hist). (fifth_sum (moved_on hist z) ∷ r.0, r.1))
      (fifth_loop-last (moved_on hist z) samples x y (omega arith))
