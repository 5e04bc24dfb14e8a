-- ===== src/Base/Word.antt =====
-- Casts to the fixed widths and shifts. A word is a number below `2 ^ w`; a cast keeps the low bits.
use Prim.Native.Nat.{ℕ, ◌+◌, ◌-◌, ◌*◌, ◌/◌, ◌%◌, ◌^◌, bit_and}

abbrev pub u8 : ℕ → ℕ
u8 n = n % 2 ^ 8

abbrev pub u16 : ℕ → ℕ
u16 n = n % 2 ^ 16

abbrev pub u32 : ℕ → ℕ
u32 n = n % 2 ^ 32

-- `a - b` in `uint8_t` and in `uint32_t`.
abbrev pub sub_u8 : ℕ → ℕ → ℕ
sub_u8 a b = (a + 2 ^ 8 - b) % 2 ^ 8

abbrev pub sub_u32 : ℕ → ℕ → ℕ
sub_u32 a b = (a + 2 ^ 32 - b) % 2 ^ 32

infixl 75 ◌<<<◌ ◌>>>◌
abbrev pub ◌<<<◌ : ℕ → ℕ → ℕ
x <<< k = x * 2 ^ k

abbrev pub ◌>>>◌ : ℕ → ℕ → ℕ
x >>> k = x / 2 ^ k

-- `a & ~m` where `a` has at most `k` bits: the bits of `a` outside the mask.
abbrev pub bit_clear : ℕ → ℕ → ℕ → ℕ
bit_clear k a m = bit_and a (2 ^ k - 1 - m)
