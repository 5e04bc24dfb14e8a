-- ===== src/R82xx/Shadow/Coherent.antt =====
-- The shadow registers agree with the registers of the chip after every successful write.
use rtlsdrwrapper.Base.{
  ℕ, zero, suc, ◌+◌, ◌-◌, ◌≤◌, ◌<◌, ◌≡◌, refl, sym, ◌∙◌, ap, subst, ◌^◌, arith,
}
use rtlsdrwrapper.Base.{Bool, true, false, ◌&&◌, List, ◌∷◌, ltb, leb, if◌then◌else◌}
use rtlsdrwrapper.Base.{length, take, drop, get_or, ◌==◌}
use rtlsdrwrapper.Base.{
  get_or-blit, get_or-take, get_or-drop, length-take, take_all, length-drop, length-blit,
}
use rtlsdrwrapper.Base.{u8}
use rtlsdrwrapper.Base.Int.{ℤ, pos, negsuc}
use rtlsdrwrapper.R82xx.State.{Priv, Config, Bus, ok}
use rtlsdrwrapper.R82xx.State.Keeps.{OnOk, OnOk-if, OnOk-map, Keeps}
use rtlsdrwrapper.R82xx.Shadow.{
  returned, failure, shadow_store, shadow_equal, chunk_size, send, write, in_bounds,
}
use rtlsdrwrapper.R82xx.Shadow.{num_regs, reg_shadow_start}

-- The registers of a chip after a write of `val` from `reg` on.
abbrev pub written : (ℕ → ℕ) → ℕ → List ℕ → ℕ → ℕ
written old reg val j =
    if leb reg j && ltb j (reg + length val) then get_or val (j - reg) 0 else old j

-- A message holds the register number and at least one byte.
pub record HasRoom (c : Config) : Type 0 where
  pub lower : 2 ≤ c.max_i2c_msg_len
  pub upper : c.max_i2c_msg_len < 2 ^ 32

-- The device at I2C address `addr` has registers: a write that returns its length stores the
-- bytes behind the first from that register on, and reads and the GPIO lines leave them alone.
pub record HasRegisters {S : Type 0} (b : Bus S) (addr : ℕ) : Type 0 where
  pub reg_of : S → ℕ → ℕ
  pub write_law :
      (reg : ℕ) (val : List ℕ) (d : S)
      → (b.i2c_write_fn addr (reg ∷ val) d).0 ≡ pos (length val + 1)
      → (j : ℕ) → reg_of (b.i2c_write_fn addr (reg ∷ val) d).1 j ≡ written (reg_of d) reg val j
  pub read_law : (len : ℕ) (d : S) (j : ℕ) → reg_of (b.i2c_read_fn addr len d).2 j ≡ reg_of d j
  pub gpio_law :
      (n : ℕ) (on : Bool) (d : S) (j : ℕ) → reg_of (b.set_bias_tee_gpio n on d).1 j ≡ reg_of d j

pub returned→eq : (rc : ℤ) (n : ℕ) → returned rc n ≡ true → rc ≡ pos n
returned→eq (pos m) n h = ground arith
returned→eq (negsuc m) n h = ground arith

pub OnOk-failure : (A : Type 0) (rc : ℤ) (T : Type 0) → OnOk (failure {A = A} rc) T
OnOk-failure A (pos n) T = tt
OnOk-failure A (negsuc n) T = tt

-- A write in two pieces.
written-take-drop :
    (old : ℕ → ℕ) (reg n : ℕ) (val : List ℕ) (j : ℕ)
    → n ≤ length val
    → written (written old reg (take n val)) (reg + n) (drop n val) j ≡ written old reg val j
written-take-drop old reg n val j h = ground (
  arith,
  length-take n val,
  length-drop n val,
  get_or-take n val (j - reg) 0,
  get_or-drop n val (j - (reg + n)) 0,
)

written-take :
    (old : ℕ → ℕ) (reg n : ℕ) (val : List ℕ) (j : ℕ)
    → (length val - n == 0) ≡ true
    → written old reg (take n val) j ≡ written old reg val j
written-take old reg n val j h = ap (λ v. written old reg v j) (take_all n val (ground arith))

-- The shadow of a block write is the block write of the shadow.
pub get_or-shadow_store :
    (regs : List ℕ) (reg : ℕ) (val : List ℕ) (i : ℕ)
    → reg_shadow_start ≤ reg
    → reg + length val ≤ reg_shadow_start + num_regs
    → length regs ≡ num_regs
    → get_or (shadow_store regs reg val) i 0
      ≡ written (λ j. get_or regs (j - reg_shadow_start) 0) reg val (reg_shadow_start + i)
unfolding shadow_store
get_or-shadow_store regs reg val i lo hi size = ground (
  arith,
  take_all (num_regs - (reg - reg_shadow_start)) val,
  get_or-blit regs (reg - reg_shadow_start) val i 0,
)

pub length-shadow_store :
    (regs : List ℕ) (reg : ℕ) (val : List ℕ) → length (shadow_store regs reg val) ≡ length regs
unfolding shadow_store
length-shadow_store regs reg val = ground (
  arith,
  length-blit regs 0 (take num_regs (drop (reg_shadow_start - reg) val)),
  length-blit regs (reg - reg_shadow_start) (take (num_regs - (reg - reg_shadow_start)) val),
)

-- Within the shadowed registers the copies stay in bounds.
pub write_at :
    {S : Type 0} (b : Bus S) (reg : ℕ) (val : List ℕ) (s : Priv S)
    → reg_shadow_start ≤ reg
    → reg + length val ≤ reg_shadow_start + num_regs
    → write b reg val s ≡ (
        if shadow_equal s.regs reg val
        then (ok tt, s)
        else send b (suc (length val)) reg val (record s { regs = shadow_store s.regs reg val }))
unfolding write
write_at b reg val s lo hi =
    let inside : in_bounds s.cfg reg val ≡ true = ground arith in rw inside refl

module _ {S : Type 0} (b : Bus S) (addr : ℕ) (chip : HasRegisters b addr) where
  -- The chip holds `val` from `reg` on, and nothing but the device has changed.
  pub record Sent (reg : ℕ) (val : List ℕ) (s s' : Priv S) : Type 0 where
    pub frame : s' ≡ record s { rtl_dev = s'.rtl_dev }
    pub stored : (j : ℕ) → chip.reg_of s'.rtl_dev j ≡ written (chip.reg_of s.rtl_dev) reg val j

  pub law_at :
      (a : ℕ)
      → a ≡ addr
      → (reg : ℕ) (val : List ℕ) (d : S) → (b.i2c_write_fn a (reg ∷ val) d).0 ≡ pos (length val + 1)
      → (j : ℕ)
      → chip.reg_of (b.i2c_write_fn a (reg ∷ val) d).1 j ≡ written (chip.reg_of d) reg val j
  law_at a e reg val d = rw e (chip.write_law reg val d)

  -- One chunk that the device took whole.
  chunk_law :
      (a : ℕ)
      → a ≡ addr
      → (reg size : ℕ) (val : List ℕ) (d : S) → size ≤ length val
      → returned (b.i2c_write_fn a (reg ∷ take size val) d).0 (size + 1) ≡ true
      → (j : ℕ)
      → chip.reg_of (b.i2c_write_fn a (reg ∷ take size val) d).1 j
        ≡ written (chip.reg_of d) reg (take size val) j
  chunk_law a e reg size val d h good =
      law_at a e reg (take size val) d
        (returned→eq _ _ good ∙ ap pos (omega (arith, length-take size val)))

  Sent-more :
      (reg size : ℕ) (val : List ℕ) (s t : Priv S) (d : S)
      → size ≤ length val
      → reg + size ≤ 255
      → ((j : ℕ) → chip.reg_of d j ≡ written (chip.reg_of s.rtl_dev) reg (take size val) j)
      → Sent (u8 (reg + size)) (drop size val) (record s { rtl_dev = d }) t
      → Sent reg val s t
  Sent-more reg size val s t d h fits first rest = record {
    frame = rest.frame;
    stored = λ j. rest.stored j ∙ after j;
  }
    where
      after :
          (j : ℕ)
          → written (chip.reg_of d) (u8 (reg + size)) (drop size val) j
            ≡ written (chip.reg_of s.rtl_dev) reg val j
      after j = ground (arith, first j, written-take-drop (chip.reg_of s.rtl_dev) reg size val j)

  pub send-Sent :
      (fuel reg : ℕ) (val : List ℕ) (s : Priv S)
      → s.cfg.i2c_addr ≡ addr
      → reg + length val ≤ 255
      → HasRoom s.cfg
      → length val < fuel
      → OnOk (send b fuel reg val s).0 (Sent reg val s (send b fuel reg val s).1)
  unfolding send
  send-Sent zero reg val s ha hr room enough = absurd (omega arith)
  send-Sent (suc fuel) reg val s ha hr room enough =
      OnOk-if (Sent reg val s) (returned w.0 (size + 1)) _ _
        (λ good.
          OnOk-if (Sent reg val s) (length val - size == 0) _ _
            (λ last. record {
              frame = refl;
              stored = λ j.
                  chunk_law s.cfg.i2c_addr ha reg size val s.rtl_dev below good j
                  ∙ written-take (chip.reg_of s.rtl_dev) reg size val j last;
            })
            (λ more.
              OnOk-map
                (send b fuel (u8 (reg + size)) (drop size val) (record s { rtl_dev = w.1 })).0
                (Sent-more reg size val s _ w.1 below (omega (arith, below))
                  (chunk_law s.cfg.i2c_addr ha reg size val s.rtl_dev below good))
                (send-Sent fuel (u8 (reg + size)) (drop size val) (record s { rtl_dev = w.1 }) ha
                  (omega (arith, below, length-drop size val)) room (shorter more))))
        (λ bad. OnOk-failure (Unit {0}) w.0 _)
    where
      size : ℕ
      size = chunk_size s.cfg.max_i2c_msg_len (length val)

      w : ℤ × S
      w = b.i2c_write_fn s.cfg.i2c_addr (reg ∷ take size val) s.rtl_dev

      shorter : (length val - size == 0) ≡ false → length (drop size val) < fuel
      shorter more = ground (arith, length-drop size val, room)

      below : size ≤ length val
      below = ground arith

  pub record IsCoherent (s : Priv S) : Type 0 where
    pub at_addr : s.cfg.i2c_addr ≡ addr
    pub room : HasRoom s.cfg
    pub size : length s.regs ≡ num_regs
    pub same :
        (i : ℕ) → i < num_regs → get_or s.regs i 0 ≡ chip.reg_of s.rtl_dev (reg_shadow_start + i)

  pub Sent-IsCoherent :
      (reg : ℕ) (val : List ℕ) (s t : Priv S)
      → reg_shadow_start ≤ reg
      → reg + length val ≤ reg_shadow_start + num_regs
      → IsCoherent s
      → Sent reg val (record s { regs = shadow_store s.regs reg val }) t
      → IsCoherent t
  Sent-IsCoherent reg val s t lo hi h sent = record {
    at_addr = ap (λ (p : Priv S). p.cfg.i2c_addr) sent.frame ∙ h.at_addr;
    room = subst HasRoom (sym (ap (λ (p : Priv S). p.cfg) sent.frame)) h.room;
    size =
        ap (λ (p : Priv S). length p.regs) sent.frame ∙ length-shadow_store s.regs reg val ∙ h.size;
    same = λ i l.
        ap (λ (p : Priv S). get_or p.regs i 0) sent.frame
        ∙ get_or-shadow_store s.regs reg val i lo hi h.size
        ∙ ground (arith, h.same i, sent.stored (reg_shadow_start + i));
  }

  pub write-IsCoherent :
      (reg : ℕ) (val : List ℕ)
      → reg_shadow_start ≤ reg
      → reg + length val ≤ reg_shadow_start + num_regs
      → Keeps IsCoherent (write b reg val)
  write-IsCoherent reg val lo hi = record {
    at = λ s h. rw (write_at b reg val s lo hi) (
        let s' = record s { regs = shadow_store s.regs reg val } in
        OnOk-if IsCoherent (shadow_equal s.regs reg val) _ _ (λ _. h)
          (λ _.
            OnOk-map (send b (suc (length val)) reg val s').0 (Sent-IsCoherent reg val s _ lo hi h)
              (send-Sent (suc (length val)) reg val s' h.at_addr (omega arith) h.room
                (omega arith))));
  }
