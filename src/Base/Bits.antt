-- ===== src/Base/Bits.antt =====
-- Laws of `&` and `|` at variables: by induction on the number of bits, from one equation for the
-- lowest digit.
use Prim.Native.Nat.{ℕ, zero, suc, ◌+◌, ◌-◌, ◌*◌, ◌/◌, ◌%◌, ◌^◌, ◌≤◌, ◌<◌, min, max}
use Prim.Native.Nat.{bit_and, bit_or, digits, bitwise, bit_and-bitwise, bit_or-bitwise}
use mathlib.Core.Path.{◌≡◌, refl, sym, ap, ap₂, ◌∙◌}
use native.Mathlib.Nat.{
  pow-suc, one-le-pow, mul-add-mod_self_left, mod-eq_of_lt, mod-lt, div-add-mod, div-div-eq-div-mul,
}
use native.Mathlib.Omega.{arith}
use rtlsdrwrapper.Base.Word.{bit_clear, ◌<<<◌}

-- A count of digits that the first number does not exceed gives every digit.
module _ (z : ℕ → ℕ) (f : ℕ → ℕ → ℕ) where
  digits-zero : (count y : ℕ) → digits z f count 0 y ≡ z y
  digits-zero zero y = refl
  digits-zero (suc count) y = refl

  digits_agree :
      (x y big large : ℕ) → x ≤ large → x ≤ big → digits z f big x y ≡ digits z f large x y
  digits_agree (suc x) y (suc big) (suc large) l b =
      ap (λ t. t * 2 + f (suc x % 2) (y % 2))
        (digits_agree (suc x / 2) (y / 2) big large (omega arith) (omega arith))
  digits_agree (suc x) y zero large l b = absurd (omega arith)
  digits_agree (suc x) y (suc big) zero l b = absurd (omega arith)
  digits_agree zero y big large l b = digits-zero big y ∙ sym (digits-zero large y)

  -- The lowest digit, and the others.
  lowest_digit :
      (x y : ℕ)
      → bitwise z f (suc x) y ≡ f (suc x % 2) (y % 2) + bitwise z f (suc x / 2) (y / 2) * 2
  lowest_digit x y =
      let half = suc x / 2 in
      omega (arith, digits_agree half (y / 2) x half (omega arith) (omega arith))

pub bit_and_digit : (a b : ℕ) → bit_and a b ≡ bit_and (a / 2) (b / 2) * 2 + min (a % 2) (b % 2)
bit_and_digit (suc x) y = simp bit_and-bitwise (omega (arith, lowest_digit (λ _. 0) min x y))
bit_and_digit zero y = simp bit_and-bitwise (omega arith)

pub bit_or_digit : (a b : ℕ) → bit_or a b ≡ bit_or (a / 2) (b / 2) * 2 + max (a % 2) (b % 2)
bit_or_digit (suc x) y = simp bit_or-bitwise (omega (arith, lowest_digit (λ d. d) max x y))
bit_or_digit zero y = simp bit_or-bitwise (omega arith)

-- Both operations at `0`, by recursion on a bound.
and_zero_below : (n a : ℕ) → a ≤ n → bit_and a 0 ≡ 0
and_zero_below n zero h = refl
and_zero_below zero (suc a) h = absurd (omega arith)
and_zero_below (suc n) (suc a) h =
    omega (arith, bit_and_digit (suc a) 0, and_zero_below n (suc a / 2) (omega arith))

pub bit_and-zero : (a : ℕ) → bit_and a 0 ≡ 0
bit_and-zero a = and_zero_below a a (omega arith)

or_zero_below : (n a : ℕ) → a ≤ n → bit_or a 0 ≡ a
or_zero_below n zero h = refl
or_zero_below zero (suc a) h = absurd (omega arith)
or_zero_below (suc n) (suc a) h =
    omega (arith, bit_or_digit (suc a) 0, or_zero_below n (suc a / 2) (omega arith))

pub bit_or-zero : (a : ℕ) → bit_or a 0 ≡ a
bit_or-zero a = or_zero_below a a (omega arith)

pub zero-bit_and : (b : ℕ) → bit_and 0 b ≡ 0
zero-bit_and b = simp bit_and-bitwise

pub zero-bit_or : (b : ℕ) → bit_or 0 b ≡ b
zero-bit_or b = simp bit_or-bitwise

half_low : (k : ℕ) → (2 ^ suc k - 1) / 2 ≡ 2 ^ k - 1
half_low k = omega (arith, pow-suc 2 k, one-le-pow k 2)

mod_double : (a m : ℕ) → 0 < m → a % (2 * m) ≡ a / 2 % m * 2 + a % 2
mod_double a m h =
    ap (λ t. t % (2 * m)) split
    ∙ mul-add-mod_self_left (2 * m) (a / 2 / m) (2 * (a / 2 % m) + a % 2)
    ∙ mod-eq_of_lt (omega (arith, mod-lt (a / 2) h))
    ∙ omega arith
  where
    split : a ≡ 2 * m * (a / 2 / m) + (2 * (a / 2 % m) + a % 2)
    split = omega (arith, div-add-mod (a / 2) m)

-- `a & (2 ^ k - 1)` keeps the low `k` bits.
pub bit_and_low : (k a : ℕ) → bit_and a (2 ^ k - 1) ≡ a % 2 ^ k
bit_and_low zero a = rw bit_and-zero (omega arith)
bit_and_low (suc k) a = ground (
  arith,
  bit_and_digit a (2 ^ suc k - 1),
  pow-suc 2 k,
  one-le-pow k 2,
  bit_and_low k (a / 2),
  half_low k,
  mod_double a (2 ^ k),
)

half_shl : (k q : ℕ) → (q <<< suc k) ≡ 2 * (q <<< k)
half_shl k q = omega (arith, ap (λ (t : ℕ). q * t) (pow-suc 2 k))

r_zero : (r : ℕ) → r < 2 ^ 0 → r ≡ 0
r_zero r h = omega arith

-- `(q << k) | r` is a sum where `r` has at most `k` bits.
pub bit_or_fields : (k q r : ℕ) → r < 2 ^ k → bit_or (q <<< k) r ≡ q <<< k + r
bit_or_fields zero q r h =
    omega (arith, bit_or-zero q, ap (bit_or (q <<< 0)) (r_zero r h), bit_or-zero (q <<< 0))
bit_or_fields (suc k) q r h =
    ground
      (arith, bit_or_digit (q <<< suc k) r, half_shl k q, bit_or_fields k q (r / 2), pow-suc 2 k)

pub bit_or_fields_below : (k q r : ℕ) → r < 2 ^ k → bit_or r (q <<< k) ≡ q <<< k + r
bit_or_fields_below zero q r h =
    omega (arith, zero-bit_or q, ap (λ x. bit_or x (q <<< 0)) (r_zero r h), zero-bit_or (q <<< 0))
bit_or_fields_below (suc k) q r h = ground (
  arith,
  bit_or_digit r (q <<< suc k),
  half_shl k q,
  bit_or_fields_below k q (r / 2),
  pow-suc 2 k,
)

-- `x & (1 << k)` is bit `k`.
pub bit_and-pow : (k a : ℕ) → bit_and a (2 ^ k) ≡ (a / 2 ^ k) % 2 * 2 ^ k
bit_and-pow zero a = bit_and_low 1 a ∙ omega arith
bit_and-pow (suc k) a = omega (
  arith,
  bit_and_digit a (2 ^ suc k),
  pow-suc 2 k,
  upper (bit_and-pow k (a / 2)),
  ap (λ (t : ℕ). a / 2 ^ suc k % 2 * t) (pow-suc 2 k),
)
  where
    shifted : a / 2 / 2 ^ k ≡ a / 2 ^ suc k
    shifted = div-div-eq-div-mul a 2 (2 ^ k) ∙ ap (λ (t : ℕ). a / t) (omega (arith, pow-suc 2 k))

    upper :
        bit_and (a / 2) (2 ^ k) ≡ (a / 2 / 2 ^ k) % 2 * 2 ^ k
        → bit_and (a / 2) (2 ^ suc k / 2) ≡ a / 2 ^ suc k % 2 * 2 ^ k
    upper ih =
        ap (bit_and (a / 2)) (omega (arith, pow-suc 2 k))
        ∙ ih
        ∙ ap (λ (t : ℕ). t % 2 * 2 ^ k) shifted

-- `x & m` is at most `m`.
pub bit_and_le : (k a m : ℕ) → m < 2 ^ k → bit_and a m ≤ m
bit_and_le zero a zero h = omega (arith, bit_and-zero a)
bit_and_le zero a (suc m) h = absurd (omega arith)
bit_and_le (suc k) a m h = omega (
  arith,
  bit_and_digit a m,
  pow-suc 2 k,
  bit_and_le k (a / 2) (m / 2) (omega (arith, pow-suc 2 k)),
)

pub bit_or_lt : (k a b : ℕ) → a < 2 ^ k → b < 2 ^ k → bit_or a b < 2 ^ k
bit_or_lt zero zero zero h p = omega arith
bit_or_lt zero (suc a) b h p = absurd (omega arith)
bit_or_lt zero zero (suc b) h p = absurd (omega arith)
bit_or_lt (suc k) a b h p = omega (
  arith,
  bit_or_digit a b,
  pow-suc 2 k,
  bit_or_lt k (a / 2) (b / 2) (omega (arith, pow-suc 2 k)) (omega (arith, pow-suc 2 k)),
)

-- `(a & ~m) | (v & m)` on `k` bits: the field under the mask `m` is replaced by that of `v`.
abbrev pub merge : ℕ → ℕ → ℕ → ℕ → ℕ
merge k a v m = bit_or (bit_clear k a m) (bit_and v m)

half_mask :
    (k m : ℕ)
    → m < 2 ^ suc k
    → ((2 ^ suc k - 1 - m) / 2 ≡ 2 ^ k - 1 - m / 2) × ((2 ^ suc k - 1 - m) % 2 ≡ 1 - m % 2)
half_mask k m h = omega (arith, pow-suc 2 k, one-le-pow k 2)

pub bit_clear_digit :
    (k a m : ℕ)
    → m < 2 ^ suc k
    → bit_clear (suc k) a m ≡ bit_clear k (a / 2) (m / 2) * 2 + min (a % 2) (1 - m % 2)
bit_clear_digit k a m h =
    ground (arith, bit_and_digit a (2 ^ suc k - 1 - m), pow-suc 2 k, half_mask k m h)

-- What `merge` does to the lowest bit and to the others.
merge_digit :
    (k a v m : ℕ)
    → m < 2 ^ suc k
    → (merge (suc k) a v m / 2 ≡ merge k (a / 2) (v / 2) (m / 2))
      × (merge (suc k) a v m % 2 ≡ max (min (a % 2) (1 - m % 2)) (min (v % 2) (m % 2)))
merge_digit k a v m h = ground (
  arith,
  bit_or_digit (bit_clear (suc k) a m) (bit_and v m),
  bit_clear_digit k a m h,
  bit_and_digit v m,
)

-- Under the mask stands the new value.
pub merge_inside : (k a v m : ℕ) → m < 2 ^ k → bit_and (merge k a v m) m ≡ bit_and v m
merge_inside zero a v zero h = bit_and-zero _ ∙ sym (bit_and-zero v)
merge_inside zero a v (suc m) h = absurd (omega arith)
merge_inside (suc k) a v m h = ground (
  arith,
  bit_and_digit (merge (suc k) a v m) m,
  bit_and_digit v m,
  merge_digit k a v m h,
  merge_inside k (a / 2) (v / 2) (m / 2),
  pow-suc 2 k,
)

-- Outside the mask stands what was there.
pub merge_outside : (k a v m : ℕ) → m < 2 ^ k → bit_clear k (merge k a v m) m ≡ bit_clear k a m
merge_outside zero a v zero h = bit_and-zero _ ∙ sym (bit_and-zero a)
merge_outside zero a v (suc m) h = absurd (omega arith)
merge_outside (suc k) a v m h = ground (
  arith,
  bit_clear_digit k (merge (suc k) a v m) m h,
  bit_clear_digit k a m h,
  merge_digit k a v m h,
  merge_outside k (a / 2) (v / 2) (m / 2),
  pow-suc 2 k,
)

-- Masking twice is masking once.
pub bit_and-bit_and : (k a m : ℕ) → m < 2 ^ k → bit_and (bit_and a m) m ≡ bit_and a m
bit_and-bit_and zero a zero h = bit_and-zero _ ∙ sym (bit_and-zero a)
bit_and-bit_and zero a (suc m) h = absurd (omega arith)
bit_and-bit_and (suc k) a m h = ground (
  arith,
  bit_and_digit (bit_and a m) m,
  bit_and_digit a m,
  bit_and-bit_and k (a / 2) (m / 2),
  pow-suc 2 k,
)

-- A word of ones.
pub ones-bit_and : (k m : ℕ) → m < 2 ^ k → bit_and (2 ^ k - 1) m ≡ m
ones-bit_and zero zero h = refl
ones-bit_and zero (suc m) h = absurd (omega arith)
ones-bit_and (suc k) m h = ground (
  arith,
  bit_and_digit (2 ^ suc k - 1) m,
  half_low k,
  ones-bit_and k (m / 2),
  pow-suc 2 k,
  one-le-pow k 2,
)

pub merge_ones : (k v m : ℕ) → m < 2 ^ k → merge k (2 ^ k - 1) v m ≡ 2 ^ k - 1 - m + bit_and v m
merge_ones zero v zero h = rw (bit_and-zero v) refl
merge_ones zero v (suc m) h = absurd (omega arith)
merge_ones (suc k) v m h = ground (
  arith,
  merge_digit k (2 ^ suc k - 1) v m h,
  bit_and_digit v m,
  half_low k,
  merge_ones k (v / 2) (m / 2),
  pow-suc 2 k,
  one-le-pow k 2,
)

-- A shifted mask selects the bits of the shifted number.
pub bit_and-shifted : (k a m : ℕ) → bit_and a (m <<< k) ≡ bit_and (a / 2 ^ k) m <<< k
bit_and-shifted zero a m = ap₂ bit_and whole one ∙ omega arith
  where
    whole : a ≡ a / 2 ^ 0
    whole = omega arith

    one : m * 2 ^ 0 ≡ m
    one = omega arith
bit_and-shifted (suc k) a m =
    ap (bit_and a) (half_shl k m)
    ∙ bit_and_digit a (2 * (m <<< k))
    ∙ omega (
      arith,
      ap (bit_and (a / 2)) (halved (m <<< k)),
      bit_and-shifted k (a / 2) m,
      ap (λ x. bit_and x m <<< k) shifted,
      half_shl k (bit_and (a / 2 ^ suc k) m),
    )
  where
    halved : (x : ℕ) → 2 * x / 2 ≡ x
    halved x = omega arith

    shifted : a / 2 / 2 ^ k ≡ a / 2 ^ suc k
    shifted = div-div-eq-div-mul a 2 (2 ^ k) ∙ ap (λ (t : ℕ). a / t) (omega (arith, pow-suc 2 k))
