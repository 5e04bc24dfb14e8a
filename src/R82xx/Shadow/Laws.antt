-- ===== src/R82xx/Shadow/Laws.antt =====
-- What a client of the register functions may rely on: they return, a successful write puts its
-- bytes into the chip and nothing else, masks confine a write to their bits.
use rtlsdrwrapper.Base.{ℕ, zero, suc, ◌+◌, ◌-◌, ◌≤◌, ◌<◌, ◌≡◌, ◌≢◌, refl, ◌∙◌, sym, ap, arith}
use rtlsdrwrapper.Base.{true, false, List, [], ◌∷◌, ◌⊎◌, ◌&&◌, leb, ltb, inl, inr, if_ind}
use rtlsdrwrapper.Base.{length, take, drop, get_or, list_eq_sound, list_eq_refl}
use rtlsdrwrapper.Base.{take-drop-blit, take_all, get_or-take, get_or-drop, u8, Bool-cases, bit_and}
use rtlsdrwrapper.Base.Bits.{merge, merge_inside, merge_outside}
use rtlsdrwrapper.Base.{bit_clear}
use rtlsdrwrapper.Base.Int.{ℤ}
use rtlsdrwrapper.R82xx.State.{Priv, Bus, Outcome, ok, err, ◌>>=◌}
use rtlsdrwrapper.R82xx.State.Keeps.{OnOk, OnOk-map}
use rtlsdrwrapper.R82xx.Shadow.{shadow_store, shadow_equal, chunk_size, send, write}
use rtlsdrwrapper.R82xx.Shadow.{num_regs, reg_shadow_start, read_cache_reg, write_reg_mask}
use rtlsdrwrapper.R82xx.Shadow.Coherent.{
  write_at, written, HasRegisters, IsCoherent, Sent, send-Sent, Sent-IsCoherent,
}

shadow_equal-store :
    (regs : List ℕ) (reg : ℕ) (val : List ℕ)
    → reg_shadow_start ≤ reg
    → reg + length val ≤ reg_shadow_start + num_regs
    → length regs ≡ num_regs
    → shadow_equal (shadow_store regs reg val) reg val ≡ true
unfolding shadow_equal shadow_store
shadow_equal-store regs reg val lo hi size = ground (
  arith,
  take_all (num_regs - (reg - reg_shadow_start)) val,
  take-drop-blit regs (reg - reg_shadow_start) val,
  list_eq_refl val,
)

-- The device's answer to the first chunk of a write.
abbrev answer : {S : Type 0} → Bus S → ℕ → List ℕ → Priv S → ℤ × S
answer b reg val s =
    b.i2c_write_fn s.cfg.i2c_addr (reg ∷ take (chunk_size s.cfg.max_i2c_msg_len (length val)) val)
      s.rtl_dev

-- What `memcmp` has found equal.
shadowed :
    (regs : List ℕ) (reg : ℕ) (val : List ℕ)
    → reg_shadow_start ≤ reg
    → shadow_equal regs reg val ≡ true
    → (j : ℕ) → reg ≤ j
    → j < reg + length val
    → get_or val (j - reg) 0 ≡ get_or regs (j - reg_shadow_start) 0
unfolding shadow_equal
shadowed regs reg val lo same j p q = ground (
  arith,
  list_eq_sound (take (length val) (drop (reg - reg_shadow_start) regs)) val,
  get_or-take (length val) (drop (reg - reg_shadow_start) regs) (j - reg) 0,
  get_or-drop (reg - reg_shadow_start) regs (j - reg) 0,
)

module _ {S : Type 0} (b : Bus S) where
  regs-send : (fuel reg : ℕ) (val : List ℕ) (s : Priv S) → (send b fuel reg val s).1.regs ≡ s.regs
  unfolding send
  regs-send zero reg val s = refl
  regs-send (suc fuel) reg val s =
      let size = chunk_size s.cfg.max_i2c_msg_len (length val) in
      ground (
        arith,
        regs-send fuel (u8 (reg + size)) (drop size val)
            (record s { rtl_dev = (answer b reg val s).1 }),
      )

  regs-write :
      (reg : ℕ) (val : List ℕ) (s : Priv S)
      → reg_shadow_start ≤ reg
      → reg + length val ≤ reg_shadow_start + num_regs
      → shadow_equal s.regs reg val ≡ false
      → (write b reg val s).1.regs ≡ shadow_store s.regs reg val
  regs-write reg val s lo hi h =
      let s' = record s { regs = shadow_store s.regs reg val } in
      rw (write_at b reg val s lo hi, h) (regs-send (suc (length val)) reg val s')

  write_equal :
      (reg : ℕ) (val : List ℕ) (t : Priv S)
      → shadow_equal t.regs reg val ≡ true
      → write b reg val t ≡ (ok tt, t)
  unfolding write
  write_equal reg val t h = rw h

  -- After a call of `r82xx_write` on shadowed registers, failed or not, a second call with the same
  -- bytes returns 0 and neither talks to the device nor changes the state: the shadow is stored
  -- before the device has taken the bytes.
  pub write_again :
      (reg : ℕ) (val : List ℕ) (s : Priv S)
      → reg_shadow_start ≤ reg
      → reg + length val ≤ reg_shadow_start + num_regs
      → length s.regs ≡ num_regs
      → write b reg val (write b reg val s).1 ≡ (ok tt, (write b reg val s).1)
  write_again reg val s lo hi size =
      write_equal reg val (write b reg val s).1 (elim (Bool-cases (shadow_equal s.regs reg val)) [
        | inl same ↦ rw (ap (λ (r : Outcome S (Unit {0})). r.1) (write_equal reg val s same)) same
        | inr new ↦
            rw (regs-write reg val s lo hi new) (shadow_equal-store s.regs reg val lo hi size)
      ])

module _ {S : Type 0} (b : Bus S) where
  -- A masked write to a shadowed register is a write of the merged byte.
  pub cached :
      (reg val bit_mask : ℕ) (s : Priv S)
      → reg_shadow_start ≤ reg
      → reg < reg_shadow_start + num_regs
      → write_reg_mask b reg val bit_mask s
        ≡ write b reg (merge 8 (get_or s.regs (reg - reg_shadow_start) 0) val bit_mask ∷ []) s
  unfolding write_reg_mask read_cache_reg ◌>>=◌
  cached reg val bit_mask s lo hi = rw (inside reg lo hi)
    where
      inside :
          (r : ℕ)
          → reg_shadow_start ≤ r
          → r < reg_shadow_start + num_regs
          → (leb reg_shadow_start r && ltb (r - reg_shadow_start) num_regs) ≡ true
      inside r p q = ground arith

  -- A masked write to a register outside the shadow returns -1 and does nothing.
  pub write_reg_mask-outside :
      (reg val bit_mask : ℕ) (s : Priv S)
      → (reg < reg_shadow_start) ⊎ (reg_shadow_start + num_regs ≤ reg)
      → write_reg_mask b reg val bit_mask s ≡ (err 0, s)
  unfolding write_reg_mask read_cache_reg ◌>>=◌
  write_reg_mask-outside reg val bit_mask s h = rw (outside reg h)
    where
      outside :
          (r : ℕ)
          → (r < reg_shadow_start) ⊎ (reg_shadow_start + num_regs ≤ r)
          → (leb reg_shadow_start r && ltb (r - reg_shadow_start) num_regs) ≡ false
      outside r p = ground arith

module _ {S : Type 0} (b : Bus S) (addr : ℕ) (chip : HasRegisters b addr) where
  -- The chip's registers after a successful write, and the shadow.
  pub record Wrote (reg : ℕ) (val : List ℕ) (s s' : Priv S) : Type 0 where
    pub coherent : IsCoherent b addr chip s'
    pub cfg_kept : s'.cfg ≡ s.cfg
    pub stored :
        (j : ℕ)
        → reg_shadow_start ≤ j
        → j < reg_shadow_start + num_regs
        → chip.reg_of s'.rtl_dev j ≡ written (chip.reg_of s.rtl_dev) reg val j

  Wrote-equal :
      (reg : ℕ) (val : List ℕ) (s : Priv S)
      → reg_shadow_start ≤ reg
      → IsCoherent b addr chip s
      → shadow_equal s.regs reg val ≡ true
      → Wrote reg val s s
  Wrote-equal reg val s lo h same = record {
    coherent = h;
    cfg_kept = refl;
    stored =
        λ j p q. ground (arith, h.same (j - reg_shadow_start), shadowed s.regs reg val lo same j);
  }

  Wrote-Sent :
      (reg : ℕ) (val : List ℕ) (s t : Priv S)
      → reg_shadow_start ≤ reg
      → reg + length val ≤ reg_shadow_start + num_regs
      → IsCoherent b addr chip s
      → Sent b addr chip reg val (record s { regs = shadow_store s.regs reg val }) t
      → Wrote reg val s t
  Wrote-Sent reg val s t lo hi h sent = record {
    coherent = Sent-IsCoherent b addr chip reg val s t lo hi h sent;
    cfg_kept = ap (λ (p : Priv S). p.cfg) sent.frame;
    stored = λ j p q. sent.stored j;
  }

  -- From agreement of shadow and chip, `r82xx_write` within the shadowed registers returns, and a
  -- success leaves exactly `val` in the chip's registers from `reg` on, all others as they were, and shadow
  -- and chip in agreement, whether it sent the bytes in chunks or skipped the transfer.
  pub write_lem :
      (reg : ℕ) (val : List ℕ) (s : Priv S)
      → reg_shadow_start ≤ reg
      → reg + length val ≤ reg_shadow_start + num_regs
      → IsCoherent b addr chip s
      → OnOk (write b reg val s).0 (Wrote reg val s (write b reg val s).1)
  write_lem reg val s lo hi h = rw (write_at b reg val s lo hi) (
      if_ind (λ (r : Outcome S (Unit {0})). OnOk r.0 (Wrote reg val s r.1)) _ _ _
        (λ same. Wrote-equal reg val s lo h same)
        (λ _. OnOk-map (send b (suc (length val)) reg val _).0 (Wrote-Sent reg val s _ lo hi h) (
          send-Sent b addr chip (suc (length val)) reg val _ h.at_addr (omega arith) h.room
            (omega arith))))

  -- What a masked write does to the registers of the chip.
  pub record Masked (reg val bit_mask : ℕ) (s s' : Priv S) : Type 0 where
    pub coherent : IsCoherent b addr chip s'
    pub cfg_kept : s'.cfg ≡ s.cfg
    pub inside : bit_and (chip.reg_of s'.rtl_dev reg) bit_mask ≡ bit_and val bit_mask
    pub outside :
        bit_clear 8 (chip.reg_of s'.rtl_dev reg) bit_mask
        ≡ bit_clear 8 (chip.reg_of s.rtl_dev reg) bit_mask
    pub others :
        (j : ℕ)
        → reg_shadow_start ≤ j
        → j < reg_shadow_start + num_regs
        → j ≢ reg
        → chip.reg_of s'.rtl_dev j ≡ chip.reg_of s.rtl_dev j

  Wrote-Masked :
      (reg val bit_mask old : ℕ) (s s' : Priv S)
      → reg_shadow_start ≤ reg
      → reg < reg_shadow_start + num_regs
      → bit_mask < 256
      → chip.reg_of s.rtl_dev reg ≡ old
      → Wrote reg (merge 8 old val bit_mask ∷ []) s s'
      → Masked reg val bit_mask s s'
  Wrote-Masked reg val bit_mask old s s' lo hi small e w =
      let new : chip.reg_of s'.rtl_dev reg ≡ merge 8 old val bit_mask =
        w.stored reg lo hi ∙ ground arith in
      record {
        coherent = w.coherent;
        cfg_kept = w.cfg_kept;
        inside = ap (λ x. bit_and x bit_mask) new ∙ merge_inside 8 old val bit_mask small;
        outside =
            ap (λ x. bit_clear 8 x bit_mask) new
            ∙ merge_outside 8 old val bit_mask small
            ∙ ap (λ x. bit_clear 8 x bit_mask) (sym e);
        others = λ j p q ne. w.stored j p q ∙ ground arith;
      }

  -- From agreement of shadow and chip, a masked write to a shadowed register returns, and a success
  -- gives the bits of that register under the mask those of the value, leaves its other bits and every other
  -- register as they were, and keeps the agreement.
  pub write_reg_mask_lem :
      (reg val bit_mask : ℕ) (s : Priv S)
      → reg_shadow_start ≤ reg
      → reg < reg_shadow_start + num_regs
      → bit_mask < 256
      → IsCoherent b addr chip s
      → OnOk
          (write_reg_mask b reg val bit_mask s).0
          (Masked reg val bit_mask s (write_reg_mask b reg val bit_mask s).1)
  write_reg_mask_lem reg val bit_mask s lo hi small h =
      let old = get_or s.regs (reg - reg_shadow_start) 0 in
      let at_reg : chip.reg_of s.rtl_dev reg ≡ old = sym (
        h.same (reg - reg_shadow_start) (omega arith)
        ∙ ap (λ j. chip.reg_of s.rtl_dev j) (omega arith)) in
      rw (cached b reg val bit_mask s lo hi) (
        OnOk-map (write b reg (merge 8 old val bit_mask ∷ []) s).0
          (Wrote-Masked reg val bit_mask old s _ lo hi small at_reg)
          (write_lem reg (merge 8 old val bit_mask ∷ []) s lo (omega arith) h))
