-- ===== src/Rtl/Fir.antt =====
-- `rtlsdr_set_fir` of librtlsdr.c: the FIR coefficients as the bytes of registers 0x1c to 0x2f.
pub mod Laws
use rtlsdrwrapper.Base.{
  ℕ, suc, ◌+◌, Bool, true, false, ◌&&◌, List, [], ◌∷◌, ◌++◌, Option, some, none,
}
use rtlsdrwrapper.Base.{if◌then◌else◌, take, drop, u8, u32, bit_and, bit_or, ◌<<<◌, ◌>>>◌}
use rtlsdrwrapper.Base.Int.{ℤ, pos, negsuc, leb_ℤ}
use rtlsdrwrapper.Base.Words.{to_word}
use rtlsdrwrapper.Rtl.Usb.{Usb, demod_write_reg}

abbrev pub fir_default : List ℤ
fir_default =
    negsuc 53
    ∷ negsuc 35
    ∷ negsuc 40
    ∷ negsuc 39
    ∷ negsuc 31
    ∷ negsuc 13
    ∷ pos 14
    ∷ pos 53
    ∷ pos 101
    ∷ pos 156
    ∷ pos 215
    ∷ pos 273
    ∷ pos 327
    ∷ pos 372
    ∷ pos 404
    ∷ pos 421
    ∷ []

abbrev pub in_range : ℕ → ℤ → Bool
in_range limit val = leb_ℤ (negsuc limit) val && leb_ℤ val (pos limit)

abbrev more : Option (List ℕ) → List ℕ → Option (List ℕ)
more none front = none
more (some rest) front = some (front ++ rest)

-- The first loop: eight bits each.
pub pack8 : List ℤ → Option (List ℕ)
pack8 [] = some []
pack8 (val ∷ vals) =
    let rest = pack8 vals in if in_range 127 val then more rest (u8 (to_word 32 val) ∷ []) else none

-- The three bytes of two coefficients of twelve bits.
pub pack_pair : ℤ → ℤ → List ℕ
pack_pair val0 val1 =
    u8 (to_word 32 val0 >>> 4)
    ∷ u8 (bit_or (u32 (to_word 32 val0 <<< 4)) (bit_and (to_word 32 val1 >>> 8) 0x0f))
    ∷ u8 (to_word 32 val1)
    ∷ []

-- The second loop.
pub pack12 : List ℤ → Option (List ℕ)
pack12 [] = some []
pack12 (val ∷ []) = none
pack12 (val0 ∷ val1 ∷ vals) =
    let rest = pack12 vals in
    if in_range 2047 val0 && in_range 2047 val1 then more rest (pack_pair val0 val1) else none

pub fir_bytes : List ℤ → Option (List ℕ)
unfolding pack8 pack12 pack_pair
fir_bytes fir = elim (pack8 (take 8 fir)) [
  | none ↦ none
  | some front ↦ more (pack12 (drop 8 fir)) front
]

module _ {S : Type 0} (usb : Usb S) where
  -- The writes from register `addr` on, up to the first that fails.
  pub write_bytes : ℕ → List ℕ → S → Bool × S
  write_bytes addr [] d = (true, d)
  write_bytes addr (byte ∷ bytes) d =
      let (good, d') = demod_write_reg usb 1 addr byte 1 d in
      let rest = write_bytes (addr + 1) bytes d' in if good then rest else (false, d')

  -- True where the function returns 0.
  pub set_fir : List ℤ → S → Bool × S
  unfolding fir_bytes write_bytes
  set_fir fir d = elim (fir_bytes fir) [ none ↦ (false, d) | some bytes ↦ write_bytes 0x1c bytes d ]
