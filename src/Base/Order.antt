-- ===== src/Base/Order.antt =====
-- Products and orders.
use Prim.Native.Nat.{ℕ, ◌*◌, ◌≤◌}
use native.Mathlib.Omega.{arith}

pub mul_mono : (a c x q : ℕ) → a ≤ x → c ≤ q → a * c ≤ x * q
mul_mono a c x q h k = grind arith
