-- ===== src/R82xx/Shadow/Reliable.antt =====
-- On a device that takes every message whole, writes succeed.
use rtlsdrwrapper.Base.{
  ℕ, zero, suc, ◌+◌, ◌-◌, ◌<◌, ◌≤◌, ◌≡◌, refl, ap, ◌∙◌, arith, true, false, List, ◌∷◌,
}
use rtlsdrwrapper.Base.{if_ind, length, take, drop, length-take, length-drop, u8, ◌==◌}
use rtlsdrwrapper.Base.Int.{ℤ, pos, negsuc}
use rtlsdrwrapper.R82xx.State.{Priv, Bus, Outcome, ok}
use rtlsdrwrapper.R82xx.Shadow.{
  in_bounds, send, write, chunk_size, returned, shadow_equal, shadow_store,
}
use rtlsdrwrapper.R82xx.Shadow.Coherent.{HasRoom}

-- Every message to the address is taken whole.
abbrev pub IsReliable : {S : Type 0} → Bus S → ℕ → Type 0
IsReliable {S} b addr =
    (bytes : List ℕ) (d : S) → (b.i2c_write_fn addr bytes d).0 ≡ pos (length bytes)

is_taken : (rc : ℤ) (n : ℕ) → rc ≡ pos n → returned rc n ≡ false → ⊥
is_taken (pos m) n e h = ground arith
is_taken (negsuc m) n e h = ground arith

module _ {S : Type 0} (b : Bus S) (addr : ℕ) (reliable : IsReliable b addr) where
  taken :
      (a : ℕ)
      → a ≡ addr
      → (reg size : ℕ) (val : List ℕ) (d : S) → size ≤ length val
      → (b.i2c_write_fn a (reg ∷ take size val) d).0 ≡ pos (size + 1)
  taken a e reg size val d h =
      let sent : length (reg ∷ take size val) ≡ size + 1 = omega (arith, length-take size val) in
      rw e (reliable (reg ∷ take size val) d ∙ ap pos sent)

  send_succeeds :
      (fuel reg : ℕ) (val : List ℕ) (s : Priv S)
      → s.cfg.i2c_addr ≡ addr
      → HasRoom s.cfg
      → length val < fuel
      → (send b fuel reg val s).0 ≡ ok tt
  unfolding send
  send_succeeds zero reg val s at room h = absurd (omega arith)
  send_succeeds (suc fuel) reg val s at room h =
      if_ind (λ (r : Outcome S (Unit {0})). r.0 ≡ ok tt) (returned w.0 (size + 1)) _ _
        (λ good.
          if_ind (λ (r : Outcome S (Unit {0})). r.0 ≡ ok tt) (length val - size == 0) _ _
            (λ last. refl)
            (λ more.
              send_succeeds fuel (u8 (reg + size)) (drop size val) (record s { rtl_dev = w.1 }) at
                room (ground (arith, length-drop size val, room))))
        (λ bad. absurd (
          is_taken w.0 (size + 1) (taken s.cfg.i2c_addr at reg size val s.rtl_dev (ground arith))
            bad))
    where
      size : ℕ
      size = chunk_size s.cfg.max_i2c_msg_len (length val)

      w : ℤ × S
      w = b.i2c_write_fn s.cfg.i2c_addr (reg ∷ take size val) s.rtl_dev

  -- On a device that takes every message whole `r82xx_write` succeeds for any number of bytes from a
  -- register up to 35 on, if a message has room for the register number and one byte, and at most the 31
  -- bytes of `priv->buf`.
  pub write_succeeds :
      (reg : ℕ) (val : List ℕ) (s : Priv S)
      → s.cfg.i2c_addr ≡ addr
      → HasRoom s.cfg
      → s.cfg.max_i2c_msg_len ≤ 31
      → reg ≤ 35
      → (write b reg val s).0 ≡ ok tt
  unfolding write
  write_succeeds reg val s at room short small =
      if_ind (λ (r : Outcome S (Unit {0})). r.0 ≡ ok tt) (shadow_equal s.regs reg val) _ _
        (λ _. refl)
        (λ _. rw inside (
          send_succeeds (suc (length val)) reg val (record s { regs = shadow_store s.regs reg val })
            at room (omega arith)))
    where
      inside : in_bounds s.cfg reg val ≡ true
      inside = ground (arith, room)
