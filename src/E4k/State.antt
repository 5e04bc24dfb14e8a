-- ===== src/E4k/State.antt =====
-- The state of the E4000 driver (`struct e4k_state`, `struct e4k_pll_params` of
-- Sources/CRTLSDR/include/tuner_e4k.h), and commands on it. The driver drops most return values, so a
-- command gives a value and the new state, and its errors are numbers. The field `i2c_dev` (never used)
-- is left out.
use rtlsdrwrapper.Base.{ℕ, Bool}
use rtlsdrwrapper.Base.Int.{ℤ, negsuc}

pub data Band : Type 0 where
  vhf2 vhf3 uhf l : Band

abbrev pub band_number : Band → ℕ
band_number vhf2 = 0
band_number vhf3 = 1
band_number uhf = 2
band_number l = 3

pub record PllParams : Type 0 where
  pub fosc : ℕ
  pub intended_flo : ℕ
  pub flo : ℕ
  pub x : ℕ
  pub z : ℕ
  pub r : ℕ
  pub r_idx : ℕ
  pub threephase : Bool

-- `rtl_dev` is the dongle with the chip behind it; its type is a parameter.
pub record E4k (S : Type 0) : Type 0 where
  pub i2c_addr : ℕ
  pub band : Band
  pub vco : PllParams
  pub rtl_dev : S

abbrev pub Command : Type 0 → Type 0 → Type 0
Command S A = E4k S → A × E4k S

module _ {S A : Type 0} where
  abbrev pub pure : A → Command S A
  pure a e = (a, e)

module _ {S : Type 0} where
  abbrev pub modify : (E4k S → E4k S) → Command S (Unit {0})
  modify f e = (tt, f e)

module _ {S A B : Type 0} where
  infixl 10 ◌>>=◌ ◌>>◌
  unfoldable pub ◌>>=◌ : Command S A → (A → Command S B) → Command S B
  ◌>>=◌ m f e = let (a, e') = m e in f a e'

  -- `m; n` where the value of `m` is dropped.
  unfoldable pub ◌>>◌ : Command S A → Command S B → Command S B
  ◌>>◌ m n e = let (a, e') = m e in n e'

-- `-EINVAL`
abbrev pub einval : ℤ
einval = negsuc 21
