-- ===== src/R82xx/Shadow/Rules.antt =====
-- Each register command keeps the agreement of shadow and chip: the rules by which `search` goes
-- through the driver's longer functions.
use rtlsdrwrapper.Base.{ℕ, ◌+◌, ◌-◌, ◌≤◌, ◌<◌, ◌≡◌, ◌∙◌, sym, ap, arith}
use rtlsdrwrapper.Base.{Bool, true, false, refl, List, [], ◌∷◌, ◌&&◌, leb, ltb}
use rtlsdrwrapper.Base.Int.{pos}
use rtlsdrwrapper.R82xx.State.{Priv, Config, Bus, Driver, modify, finally}
use rtlsdrwrapper.R82xx.State.Keeps.{
  keeps_rules, Keeps, Keeps-modify, Keeps-finally, OnOk, OnOk-map, OnOk-if,
}
use rtlsdrwrapper.R82xx.Shadow.{num_regs, reg_shadow_start, write_reg_mask}
use rtlsdrwrapper.R82xx.Shadow.{write, write_reg, read, returned, send, shadow_store, shadow_equal}
use rtlsdrwrapper.R82xx.Shadow.Coherent.{
  Sent, send-Sent, get_or-shadow_store, length-shadow_store, HasRegisters, HasRoom, IsCoherent,
  write_at, write-IsCoherent, OnOk-failure, law_at, returned→eq,
}
use rtlsdrwrapper.R82xx.Shadow.Laws.{cached, write_reg_mask-outside}
use rtlsdrwrapper.Base.{suc, get_or_ext, get_or, length, subst, Bool-cases, inl, inr, ◌⊎◌}

in_shadow :
    (reg : ℕ)
    → (leb reg_shadow_start reg && ltb (reg - reg_shadow_start) num_regs) ≡ true
    → (reg_shadow_start ≤ reg) × (reg < reg_shadow_start + num_regs)
in_shadow reg e = ground arith

out_of_shadow :
    (reg : ℕ)
    → (leb reg_shadow_start reg && ltb (reg - reg_shadow_start) num_regs) ≡ false
    → (reg < reg_shadow_start) ⊎ (reg_shadow_start + num_regs ≤ reg)
out_of_shadow reg e = ground arith

room_for_one : (reg : ℕ) → reg < reg_shadow_start + num_regs → reg + 1 ≤ reg_shadow_start + num_regs
room_for_one reg h = omega arith

-- The register is shadowed, as a type that computes at a numeral.
abbrev IsTrue : Bool → Type 0
IsTrue true = Unit
IsTrue false = ⊥

abbrev pub InShadow : ℕ → Type 0
InShadow reg = IsTrue (leb reg_shadow_start reg && ltb (reg - reg_shadow_start) num_regs)

InShadow_sound : (t : Bool) → IsTrue t → t ≡ true
InShadow_sound true h = refl
InShadow_sound false h = elim h [ ]

module _ {S : Type 0} (b : Bus S) (addr : ℕ) (chip : HasRegisters b addr) where
  pub write_reg_mask-IsCoherent :
      (reg val bit_mask : ℕ) → Keeps (IsCoherent b addr chip) (write_reg_mask b reg val bit_mask)
  write_reg_mask-IsCoherent reg val bit_mask = record {
    at = λ s h.
        elim (Bool-cases (leb reg_shadow_start reg && ltb (reg - reg_shadow_start) num_regs)) [
          | inl e ↦ rw (cached b reg val bit_mask s (in_shadow reg e).0 (in_shadow reg e).1) (
              (write-IsCoherent b addr chip reg (_ ∷ []) (in_shadow reg e).0
                  (room_for_one reg (in_shadow reg e).1)).at
                s h)
          | inr e ↦ rw (write_reg_mask-outside b reg val bit_mask s (out_of_shadow reg e)) tt
        ];
  }

  pub write_reg-IsCoherent :
      (reg val : ℕ) → InShadow reg → Keeps (IsCoherent b addr chip) (write_reg b reg val)
  unfolding write_reg
  write_reg-IsCoherent reg val h =
      let bounds = in_shadow reg (InShadow_sound _ h) in
      write-IsCoherent b addr chip reg (val ∷ []) bounds.0 (room_for_one reg bounds.1)

  -- A new device state with the same registers.
  pub device-IsCoherent :
      (s : Priv S) (d : S)
      → ((j : ℕ) → chip.reg_of d j ≡ chip.reg_of s.rtl_dev j)
      → IsCoherent b addr chip s
      → IsCoherent b addr chip (record s { rtl_dev = d })
  device-IsCoherent s d e h = record {
    at_addr = h.at_addr;
    room = h.room;
    size = h.size;
    same = λ i l. h.same i l ∙ sym (e _);
  }

  read_at :
      (a : ℕ)
      → a ≡ addr
      → (len : ℕ) (d : S) (j : ℕ) → chip.reg_of (b.i2c_read_fn a len d).2 j ≡ chip.reg_of d j
  read_at a e len d j = rw e (chip.read_law len d j)

  -- A write of the register number alone moves the pointer only.
  pointer_law :
      (a : ℕ)
      → a ≡ addr
      → (reg : ℕ) (d : S) → returned (b.i2c_write_fn a (reg ∷ []) d).0 1 ≡ true
      → (j : ℕ) → chip.reg_of (b.i2c_write_fn a (reg ∷ []) d).1 j ≡ chip.reg_of d j
  pointer_law a e reg d pointed j =
      law_at b addr chip a e reg [] d (returned→eq _ _ pointed ∙ ap pos (omega arith)) j
      ∙ ground arith

  pub read-IsCoherent : (reg len : ℕ) → Keeps (IsCoherent b addr chip) (read b reg len)
  unfolding read
  read-IsCoherent reg len = record {
    at = λ s h.
        let w = b.i2c_write_fn s.cfg.i2c_addr (reg ∷ []) s.rtl_dev in
        let r = b.i2c_read_fn s.cfg.i2c_addr len w.1 in
        OnOk-if (IsCoherent b addr chip) (returned w.0 1) _ _
          (λ pointed.
            OnOk-if (IsCoherent b addr chip) (returned r.0 len) _ _
              (λ _.
                device-IsCoherent s r.2
                  (λ j.
                    read_at s.cfg.i2c_addr h.at_addr len w.1 j
                    ∙ pointer_law s.cfg.i2c_addr h.at_addr reg s.rtl_dev pointed j)
                  h)
              (λ _. OnOk-failure (List ℕ) r.0 _))
          (λ _. OnOk-failure (List ℕ) w.0 _);
  }

  IsCoherent-of :
      (s t : Priv S)
      → t.cfg ≡ s.cfg
      → t.regs ≡ s.regs
      → t.rtl_dev ≡ s.rtl_dev
      → IsCoherent b addr chip s
      → IsCoherent b addr chip t
  IsCoherent-of s t c r d h = record {
    at_addr = ap (λ (x : Config). x.i2c_addr) c ∙ h.at_addr;
    room = subst HasRoom (sym c) h.room;
    size = ap length r ∙ h.size;
    same = λ i l.
        ap (λ (x : List ℕ). get_or x i 0) r
        ∙ h.same i l
        ∙ ap (λ (x : S). chip.reg_of x (reg_shadow_start + i)) (sym d);
  }

  -- An assignment to a field that is neither the configuration, nor the shadow, nor the device.
  pub modify-IsCoherent :
      (f : Priv S → Priv S)
      → ((s : Priv S) → (f s).cfg ≡ s.cfg)
      → ((s : Priv S) → (f s).regs ≡ s.regs)
      → ((s : Priv S) → (f s).rtl_dev ≡ s.rtl_dev)
      → Keeps (IsCoherent b addr chip) (modify f)
  modify-IsCoherent f c r d = Keeps-modify f (λ s h. IsCoherent-of s (f s) (c s) (r s) (d s) h)

  pub finally-IsCoherent :
      (m : Driver S (Unit {0})) (f : Priv S → Priv S)
      → Keeps (IsCoherent b addr chip) m
      → ((s : Priv S) → (f s).cfg ≡ s.cfg)
      → ((s : Priv S) → (f s).regs ≡ s.regs)
      → ((s : Priv S) → (f s).rtl_dev ≡ s.rtl_dev)
      → Keeps (IsCoherent b addr chip) (finally m f)
  finally-IsCoherent m f km c r d =
      Keeps-finally m f km (λ s h. IsCoherent-of s (f s) (c s) (r s) (d s) h)

  Sent-fresh :
      (val : List ℕ) (s t : Priv S)
      → length val ≡ num_regs
      → length s.regs ≡ num_regs
      → s.cfg.i2c_addr ≡ addr
      → HasRoom s.cfg
      → Sent b addr chip reg_shadow_start val
          (record s { regs = shadow_store s.regs reg_shadow_start val })
          t
      → IsCoherent b addr chip t × (t.regs ≡ val)
  Sent-fresh val s t whole size at room sent = (
    record {
      at_addr = ap (λ (p : Priv S). p.cfg.i2c_addr) sent.frame ∙ at;
      room = subst HasRoom (sym (ap (λ (p : Priv S). p.cfg) sent.frame)) room;
      size = ap length regs_val ∙ whole;
      same = λ i l.
          ap (λ (r : List ℕ). get_or r i 0) regs_val
          ∙ ground (arith, sent.stored (reg_shadow_start + i));
    },
    regs_val,
  )
    where
      regs_val : t.regs ≡ val
      regs_val =
          ap (λ (p : Priv S). p.regs) sent.frame
          ∙ get_or_ext 0 (shadow_store s.regs reg_shadow_start val) val
              (length-shadow_store s.regs reg_shadow_start val ∙ size ∙ sym whole)
              (λ i l.
                get_or-shadow_store s.regs reg_shadow_start val i (omega arith) (omega arith) size
                ∙ ground (arith, length-shadow_store s.regs reg_shadow_start val))

  -- A write of every shadowed register brings shadow and chip into agreement from any state.
  pub fresh_write :
      (val : List ℕ) (s : Priv S)
      → length val ≡ num_regs
      → length s.regs ≡ num_regs
      → s.cfg.i2c_addr ≡ addr
      → HasRoom s.cfg
      → shadow_equal s.regs reg_shadow_start val ≡ false
      → OnOk (write b reg_shadow_start val s).0 (
          IsCoherent b addr chip (write b reg_shadow_start val s).1
          × ((write b reg_shadow_start val s).1.regs ≡ val))
  fresh_write val s whole size at room new =
      let s' = record s { regs = shadow_store s.regs reg_shadow_start val } in
      rw (write_at b reg_shadow_start val s (omega arith) (omega arith), new)
        (OnOk-map (send b (suc (length val)) reg_shadow_start val s').0
          (Sent-fresh val s _ whole size at room)
          (send-Sent b addr chip (suc (length val)) reg_shadow_start val s' at (omega arith) room
            (omega arith)))

pub ruleset coherent_rules = (
  keeps_rules, write_reg_mask-IsCoherent, write_reg-IsCoherent, read-IsCoherent, modify-IsCoherent,
  finally-IsCoherent, tt, refl,
)
