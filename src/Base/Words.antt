-- ===== src/Base/Words.antt =====
-- Signed numbers as two's complement words, and the `|` of C on them.
use Prim.Native.Nat.{ℕ, ◌+◌, ◌-◌, ◌%◌, ◌^◌, bit_or}
use rtlsdrwrapper.Base.Int.{ℤ, pos, negsuc}
use rtlsdrwrapper.Base.Tests.{ltb, if◌then◌else◌}

abbrev pub to_word : ℕ → ℤ → ℕ
to_word w (pos n) = n % 2 ^ w
to_word w (negsuc n) = 2 ^ w - 1 - n % 2 ^ w

abbrev pub of_word : ℕ → ℕ → ℤ
of_word w n = if ltb (n + n) (2 ^ w) then pos n else negsuc (2 ^ w - 1 - n)

-- `a | b` on `int`.
unfoldable pub or_ℤ : ℤ → ℤ → ℤ
or_ℤ a b = of_word 32 (bit_or (to_word 32 a) (to_word 32 b))
