-- ===== src/E4k/Regs/Steady.antt =====
-- The commands of tuner_e4k.c that leave the stored PLL parameters and the address alone.
use rtlsdrwrapper.Base.{ℕ, bit_and, ◌≡◌, Bool, true, false, ◌==◌, if◌then◌else◌, if_ind, [], ◌∷◌}
use rtlsdrwrapper.Base.Bits.{merge}
use rtlsdrwrapper.Base.Int.{ℤ, pos}
use rtlsdrwrapper.Base.Words.{to_word}
use rtlsdrwrapper.R82xx.State.{Bus}
use rtlsdrwrapper.E4k.State.{E4k, PllParams, Command, ◌>>=◌, ◌>>◌, pure}
use rtlsdrwrapper.E4k.Regs.{below_one, reg_write, reg_read, masked_write, reg_set_mask}

pub record Steady {S A : Type 0} (vco : PllParams) (addr : ℕ) (m : Command S A) : Type 0 where
  pub at :
      (e : E4k S)
      → (e.vco ≡ vco) × (e.i2c_addr ≡ addr)
      → ((m e).1.vco ≡ vco) × ((m e).1.i2c_addr ≡ addr)

module _ {S : Type 0} {vco : PllParams} {addr : ℕ} where
  pub Steady-pure : {A : Type 0} (a : A) → Steady {S = S} vco addr (pure a)
  Steady-pure a = record { at = λ e h. h }

  pub Steady-then :
      {A B : Type 0} (m : Command S A) (n : Command S B)
      → Steady vco addr m
      → Steady vco addr n
      → Steady vco addr (m >> n)
  unfolding ◌>>◌
  Steady-then m n hm hn = record { at = λ e h. hn.at (m e).1 (hm.at e h) }

  pub Steady-bind :
      {A B : Type 0} (m : Command S A) (f : A → Command S B)
      → Steady vco addr m
      → ((a : A) → Steady vco addr (f a))
      → Steady vco addr (m >>= f)
  unfolding ◌>>=◌
  Steady-bind m f hm hf = record { at = λ e h. (hf (m e).0).at (m e).1 (hm.at e h) }

  pub Steady-if :
      {A : Type 0} (t : Bool) (m n : Command S A)
      → Steady vco addr m
      → Steady vco addr n
      → Steady vco addr (if t then m else n)
  Steady-if true m n hm hn = hm
  Steady-if false m n hm hn = hn

  module _ (b : Bus S) where
    pub reg_write-Steady : (reg val : ℕ) → Steady vco addr (reg_write b reg val)
    unfolding reg_write
    reg_write-Steady reg val = record { at = λ e h. h }

    pub reg_read-Steady : (reg : ℕ) → Steady vco addr (reg_read b reg)
    unfolding reg_read
    reg_read-Steady reg = record {
      at = λ e h.
          let (rc, dev) = b.i2c_write_fn e.i2c_addr (reg ∷ []) e.rtl_dev in
          if_ind (λ (r : ℤ × E4k S). (r.1.vco ≡ vco) × (r.1.i2c_addr ≡ addr)) (below_one rc) _ _
            (λ _. h)
            (λ _.
              if_ind (λ (r : ℤ × E4k S). (r.1.vco ≡ vco) × (r.1.i2c_addr ≡ addr))
                (below_one (b.i2c_read_fn e.i2c_addr 1 dev).0) _ _ (λ _. h) (λ _. h));
    }

    pub reg_set_mask-Steady : (reg mask val : ℕ) → Steady vco addr (reg_set_mask b reg mask val)
    unfolding reg_set_mask masked_write
    reg_set_mask-Steady reg mask val =
        Steady-bind (reg_read b reg) (λ tmp. masked_write b reg mask val (to_word 8 tmp))
          (reg_read-Steady reg)
          (λ tmp.
            Steady-if (bit_and (to_word 8 tmp) mask == val) (pure (pos 0))
              (reg_write b reg (merge 8 (to_word 8 tmp) val mask)) (Steady-pure (pos 0))
              (reg_write-Steady reg (merge 8 (to_word 8 tmp) val mask)))
