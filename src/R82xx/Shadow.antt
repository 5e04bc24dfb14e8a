-- ===== src/R82xx/Shadow.antt =====
-- Register access of tuner_r82xx.c: the shadow registers, chunked I2C writes, masked writes and
-- reads with the chip's reversed bit order.
pub mod Coherent
pub mod Laws
pub mod Rules
pub mod Reliable
use rtlsdrwrapper.Base.{ℕ, zero, suc, ◌+◌, ◌-◌, ◌%◌, ◌/◌, ◌*◌, ◌^◌, bit_and, bit_or}
use rtlsdrwrapper.Base.{
  Bool, true, false, ◌||◌, ◌&&◌, List, [], ◌∷◌, map, ltb, leb, ◌==◌, if◌then◌else◌,
}
use rtlsdrwrapper.Base.{u8, sub_u32, ◌<<<◌, ◌>>>◌, length, take, drop, get_or, blit, list_eq}
use rtlsdrwrapper.Base.Bits.{merge}
use rtlsdrwrapper.Base.Int.{ℤ, pos, negsuc}
use rtlsdrwrapper.R82xx.State.{
  Priv, Config, Bus, Result, ok, err, diverges, Driver, ◌>>=◌, pure, raise,
}

abbrev pub reg_shadow_start : ℕ
reg_shadow_start = 5

abbrev pub num_regs : ℕ
num_regs = 30

-- `r` is `reg - REG_SHADOW_START`. Below the shadow the head of `val` is skipped; what reaches past
-- its end is cut off. It is called where `in_bounds` holds, so `NUM_REGS - r` is not negative.
unfoldable pub shadow_store : List ℕ → ℕ → List ℕ → List ℕ
shadow_store regs reg val =
    if ltb reg reg_shadow_start
    then blit regs 0 (take num_regs (drop (reg_shadow_start - reg) val))
    else let r = reg - reg_shadow_start in blit regs r (take (num_regs - r) val)

-- `len > NUM_REGS - r` on signed numbers is `r + len > NUM_REGS`.
unfoldable pub shadow_equal : List ℕ → ℕ → List ℕ → Bool
shadow_equal regs reg val =
    if ltb reg reg_shadow_start || ltb num_regs (reg - reg_shadow_start + length val)
    then false
    else list_eq (take (length val) (drop (reg - reg_shadow_start) regs)) val

-- `rc == n`
abbrev pub returned : ℤ → ℕ → Bool
returned (pos m) n = m == n
returned (negsuc m) n = false

-- `if (rc < 0) return rc; return -1;`
abbrev pub failure : {A : Type 0} → ℤ → Result A
failure (pos n) = err 0
failure (negsuc n) = err n

abbrev lut : List ℕ
lut =
    0x0 ∷ 0x8 ∷ 0x4 ∷ 0xc ∷ 0x2 ∷ 0xa ∷ 0x6 ∷ 0xe ∷ 0x1 ∷ 0x9 ∷ 0x5 ∷ 0xd ∷ 0x3 ∷ 0xb ∷ 0x7 ∷ 0xf
    ∷ []

unfoldable pub bitrev : ℕ → ℕ
bitrev byte = u8 (bit_or (get_or lut (bit_and byte 0xf) 0 <<< 4) (get_or lut (byte >>> 4) 0))

-- The size of the next chunk; `max_i2c_msg_len - 1` is unsigned.
abbrev pub chunk_size : ℕ → ℕ → ℕ
chunk_size max_len len = if ltb (sub_u32 max_len 1) len then sub_u32 max_len 1 else len

-- What the two copies of `r82xx_write` need: for bytes behind the shadow's end the length of the first
-- is negative, and `priv->buf` has a byte for the register number and 30 for a chunk.
abbrev pub in_bounds : Config → ℕ → List ℕ → Bool
in_bounds cfg reg val =
    (length val == 0 || leb reg (reg_shadow_start + num_regs))
    && leb (chunk_size cfg.max_i2c_msg_len (length val)) num_regs

module _ {S : Type 0} (b : Bus S) where
  -- The `do … while (len > 0)` of `r82xx_write` on the bytes left, with fuel. It is
  -- called where `in_bounds` holds, and no chunk is larger than the first, so all fit `priv->buf`.
  unfoldable pub send : ℕ → ℕ → List ℕ → Driver S (Unit {0})
  send zero reg val s = (diverges, s)
  send (suc fuel) reg val s =
      let size = chunk_size s.cfg.max_i2c_msg_len (length val) in
      let (rc, dev) = b.i2c_write_fn s.cfg.i2c_addr (reg ∷ take size val) s.rtl_dev in
      let s' = record s { rtl_dev = dev } in
      let rest = send fuel (u8 (reg + size)) (drop size val) s' in
      if returned rc (size + 1)
      then (if length val - size == 0 then (ok tt, s') else rest)
      else (failure rc, s')

  -- A call whose copies leave `priv->regs` or `priv->buf` is undefined in C, and `diverges` here.
  unfoldable pub write : ℕ → List ℕ → Driver S (Unit {0})
  write reg val s =
      if shadow_equal s.regs reg val
      then (ok tt, s)
      else if in_bounds s.cfg reg val
      then send (suc (length val)) reg val (record s { regs = shadow_store s.regs reg val })
      else (diverges, s)

  unfoldable pub write_reg : ℕ → ℕ → Driver S (Unit {0})
  write_reg reg val = write reg (val ∷ [])

  unfoldable pub read_cache_reg : ℕ → Driver S ℕ
  read_cache_reg reg s =
      if leb reg_shadow_start reg && ltb (reg - reg_shadow_start) num_regs
      then (ok (get_or s.regs (reg - reg_shadow_start) 0), s)
      else (err 0, s)

  unfoldable pub write_reg_mask : ℕ → ℕ → ℕ → Driver S (Unit {0})
  write_reg_mask reg val bit_mask = do
    rc ← read_cache_reg reg
    write reg (merge 8 rc val bit_mask ∷ [])

  unfoldable pub read : ℕ → ℕ → Driver S (List ℕ)
  read reg len s =
      let (rc, dev) = b.i2c_write_fn s.cfg.i2c_addr (reg ∷ []) s.rtl_dev in
      let (rc', p, dev') = b.i2c_read_fn s.cfg.i2c_addr len dev in
      if returned rc 1
      then (if returned rc' len
          then (ok (map bitrev p), record s { rtl_dev = dev' })
          else (failure rc', record s { rtl_dev = dev' }))
      else (failure rc, record s { rtl_dev = dev })
