-- ===== src/Tools/Fm/Angle.antt =====
-- The range of `fast_atan2`.
use native.Mathlib.Nat.{div-le_of_le-mul}
use rtlsdrwrapper.Base.{ℕ, suc, ◌+◌, ◌-◌, ◌*◌, ◌/◌, ◌≤◌, ◌≡◌, sym, ap, subst, ◌∙◌, arith}
use rtlsdrwrapper.Base.{Bool, true, false, ◌&&◌, if◌then◌else◌}
use rtlsdrwrapper.Base.Int.{
  eq_ℤ, ℤ, pos, negsuc, ◌+ℤ◌, ◌-ℤ◌, pos_part, neg_part, sub_ℕ, is_negative,
}
use rtlsdrwrapper.Tools.Fm.{fast_atan2, quotient, div_ℤ, abs_ℤ, negate}

-- A quotient of at most 1 in units of `pi4`.
abbrev Small : ℤ → Type 0
Small q = (pos_part q ≤ 4096) × (neg_part q ≤ 4096)

bounded : (n v : ℕ) → n ≤ v → 4096 * n / v ≤ 4096
bounded n v h = div-le_of_le-mul v (omega arith)

positive : (n v : ℕ) → quotient (pos n) v ≡ pos (4096 * n / v)
positive n v =
    let e : sub_ℕ (4096 * n) (4096 * 0) ≡ pos (4096 * n) = ground arith in ap (λ t. div_ℤ t v) e

negative : (n v : ℕ) → quotient (negsuc n) v ≡ sub_ℕ 0 (4096 * suc n / v)
negative n v =
    let e : sub_ℕ (4096 * 0) (4096 * suc n) ≡ negsuc (4096 * suc n - 1) = ground arith in
    ap (λ t. div_ℤ t v) e ∙ ap (λ k. sub_ℕ 0 (k / v)) (omega arith)

quotient-Small : (u : ℤ) (v : ℕ) → pos_part u ≤ v → neg_part u ≤ v → Small (quotient u v)
quotient-Small (pos n) v h k = subst Small (sym (positive n v)) (bounded n v h, omega arith)
quotient-Small (negsuc n) v h k =
    subst Small (sym (negative n v)) (ground (arith, bounded (suc n) v k))

-- The angle lies in the half plane of `x` and on the side of `y`: `pi` is 16384.
abbrev pub InQuadrant : ℤ → ℤ → ℤ → Type 0
InQuadrant y x angle =
    (abs_ℤ angle ≤ 16384)
    × (is_negative y ≡ false → neg_part angle ≡ 0)
    × (is_negative y ≡ true → pos_part angle ≡ 0)
    × (is_negative x ≡ false → abs_ℤ angle ≤ 8192)

abbrev angle_of : Bool → ℤ → ℤ
angle_of left q = if left then pos 12288 -ℤ q else pos 4096 -ℤ q

signed_angle :
    (y x q : ℤ)
    → Small q
    → InQuadrant y x (
        if eq_ℤ x (pos 0) && eq_ℤ y (pos 0)
        then pos 0
        else if is_negative y
        then negate (angle_of (is_negative x) q)
        else angle_of (is_negative x) q)
unfolding ◌-ℤ◌
signed_angle (pos n) (pos m) q h = ground arith
signed_angle (pos n) (negsuc m) q h = ground arith
signed_angle (negsuc n) (pos m) q h = ground arith
signed_angle (negsuc n) (negsuc m) q h = ground arith

differ :
    (m n : ℕ)
    → (pos_part (pos m -ℤ pos n) ≤ abs_ℤ (pos m) + n)
      × (neg_part (pos m -ℤ pos n) ≤ abs_ℤ (pos m) + n)
unfolding ◌-ℤ◌
differ m n = ground arith

sum :
    (m n : ℕ)
    → (pos_part (negsuc m +ℤ pos n) ≤ n + abs_ℤ (negsuc m))
      × (neg_part (negsuc m +ℤ pos n) ≤ n + abs_ℤ (negsuc m))
unfolding ◌+ℤ◌
sum m n = ground arith

-- Where `y` is not negative the angle is not, where `y` is negative it is not positive; it is at most a
-- half turn, 16384, and at most a quarter turn where `x` is not negative.
pub fast_atan2-InQuadrant : (y x : ℤ) → InQuadrant y x (fast_atan2 y x)
unfolding fast_atan2
fast_atan2-InQuadrant y (pos m) =
    signed_angle y (pos m) (quotient (pos m -ℤ pos (abs_ℤ y)) (abs_ℤ (pos m) + abs_ℤ y))
      (quotient-Small _ _ (differ m (abs_ℤ y)).0 (differ m (abs_ℤ y)).1)
fast_atan2-InQuadrant y (negsuc m) =
    signed_angle y (negsuc m) (quotient (negsuc m +ℤ pos (abs_ℤ y)) (abs_ℤ y + abs_ℤ (negsuc m)))
      (quotient-Small _ _ (sum m (abs_ℤ y)).0 (sum m (abs_ℤ y)).1)
