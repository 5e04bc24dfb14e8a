-- ===== src/Rtl/Eeprom/Laws.antt =====
-- A successful write puts the bytes into the memory and touches no other cell.
use rtlsdrwrapper.Base.{
  ℕ, ◌+◌, ◌-◌, ◌≤◌, ◌<◌, ◌≡◌, ◌≢◌, suc, take, refl, ap, ◌∙◌, arith, true, List, [], ◌∷◌, ◌&&◌,
}
use rtlsdrwrapper.Base.{
  ltb, leb, ◌==◌, if◌then◌else◌, get_or, length, u8, if_ind, Bool-cases, ◌⊎◌, inl, inr,
}
use rtlsdrwrapper.Base.Int.{ℤ, pos, negsuc}
use rtlsdrwrapper.Rtl.Usb.{Usb, iicb, write_array, is_len}
use rtlsdrwrapper.Rtl.Eeprom.{eeprom_addr, peek, write_cells, write_eeprom}

-- The device has a memory behind the I2C address of the EEPROM: a write of a cell number and a byte
-- that is taken whole stores the byte, and changes no other cell whether it is taken or not; selecting
-- and reading a cell changes none.
pub record HasMemory {S : Type 0} (usb : Usb S) : Type 0 where
  pub cell_of : S → ℕ → ℕ
  pub store_law :
      (cell byte : ℕ) (d : S)
      → is_len (write_array usb iicb eeprom_addr (cell ∷ byte ∷ []) d).0 2 ≡ true
      → (j : ℕ)
      → cell_of (write_array usb iicb eeprom_addr (cell ∷ byte ∷ []) d).1 j
        ≡ (if j == cell then byte else cell_of d j)
  pub other_law :
      (cell byte j : ℕ) (d : S)
      → j ≢ cell
      → cell_of (write_array usb iicb eeprom_addr (cell ∷ byte ∷ []) d).1 j ≡ cell_of d j
  pub keep_law : (cell old j : ℕ) (d : S) → cell_of (peek usb cell old d).1 j ≡ cell_of d j

-- Every read of a cell succeeds and gives its byte. The driver does not look at the results of its
-- reads: where one fails, it compares with the byte it had before.
abbrev pub IsReadable : {S : Type 0} (usb : Usb S) → HasMemory usb → Type 0
IsReadable {S} usb mem = (cell old : ℕ) (d : S) → (peek usb cell old d).0 ≡ mem.cell_of d cell

-- The memory after a write of `bytes` from `cell` on.
abbrev pub stored : (ℕ → ℕ) → ℕ → List ℕ → ℕ → ℕ
stored old cell bytes j =
    if leb cell j && ltb j (cell + length bytes) then get_or bytes (j - cell) 0 else old j

-- The call has returned 0 with the memory written, or -3 where the first `k` bytes are written: but for
-- the cell behind them, whose byte was refused, the memory is that of a write of those.
abbrev pub IsWritten : {S : Type 0} (usb : Usb S) → HasMemory usb → ℕ → List ℕ → S → ℤ × S → Type 0
IsWritten usb mem cell bytes d r =
    ((r.0 ≡ pos 0) × ((j : ℕ) → mem.cell_of r.1 j ≡ stored (mem.cell_of d) cell bytes j))
    ⊎ ((r.0 ≡ negsuc 2)
        × (k : ℕ) × (k < length bytes)
        × ((j : ℕ)
            → j ≢ cell + k
            → mem.cell_of r.1 j ≡ stored (mem.cell_of d) cell (take k bytes) j))

module _ {S : Type 0} (usb : Usb S) (mem : HasMemory usb) (readable : IsReadable usb mem) where
  -- One byte in front of a rest that is written.
  IsWritten-after :
      (cell byte : ℕ) (bytes : List ℕ) (d d' : S) (r : ℤ × S)
      → ((j : ℕ) → mem.cell_of d' j ≡ (if j == cell then byte else mem.cell_of d j))
      → IsWritten usb mem (cell + 1) bytes d' r
      → IsWritten usb mem cell (byte ∷ bytes) d r
  IsWritten-after cell byte bytes d d' r step (inr (failed, k, small, rest)) = inr (
    failed,
    suc k,
    omega arith,
    λ j ne. rest j (λ e. ne (e ∙ omega arith)) ∙ ground (arith, step j),
  )
  IsWritten-after cell byte bytes d d' r step (inl (zero_r, rest)) =
      inl (zero_r, λ j. rest j ∙ ground (arith, step j))

  write_cells_lem :
      (cell old : ℕ) (bytes : List ℕ) (d : S)
      → cell + length bytes ≤ 256
      → IsWritten usb mem cell bytes d (write_cells usb cell old bytes d)
  unfolding write_cells
  write_cells_lem cell old [] d h = inl (refl, λ j. ground arith)
  write_cells_lem cell old (byte ∷ bytes) d h =
      let fits : u8 cell ≡ cell = omega arith in
      let p = peek usb (u8 cell) old d in
      let w = write_array usb iicb eeprom_addr (u8 cell ∷ byte ∷ []) p.1 in
      let seen = readable (u8 cell) old d in
      let kept = λ (j : ℕ). mem.keep_law (u8 cell) old j d in
      if_ind (IsWritten usb mem cell (byte ∷ bytes) d) (p.0 == byte) _ _
        (λ same.
          IsWritten-after cell byte bytes d p.1 _
            (λ j. ground (arith, seen, kept j, ap (mem.cell_of d) fits))
            (write_cells_lem (cell + 1) p.0 bytes p.1 (omega arith)))
        (λ _.
          if_ind (IsWritten usb mem cell (byte ∷ bytes) d) (is_len w.0 2) _ _
            (λ taken.
              IsWritten-after cell byte bytes d w.1 _
                (λ j. ground (arith, mem.store_law (u8 cell) byte p.1 taken j, kept j))
                (write_cells_lem (cell + 1) byte bytes w.1 (omega arith)))
            (λ _. inr (
              refl,
              0,
              omega arith,
              λ j ne.
                  mem.other_law (u8 cell) byte j p.1 (λ e. ne (e ∙ omega arith))
                  ∙ kept j
                  ∙ ground arith,
            )))

  -- On a memory of which every read succeeds: a write that fits the 256 bytes of the EEPROM returns 0
  -- with exactly the given bytes in the cells from `offset` on and every other cell as it was, or it
  -- returns -3 at some byte, with the bytes before it written and every other cell but that of the byte
  -- as it was. A write that does not fit returns -2 and leaves the device alone.
  pub write_eeprom_lem :
      (stack : ℕ) (bytes : List ℕ) (offset : ℕ) (d : S)
      → ((length bytes + offset ≤ 256)
          × IsWritten usb mem offset bytes d (write_eeprom usb stack bytes offset d))
        ⊎ ((256 < length bytes + offset) × (write_eeprom usb stack bytes offset d ≡ (negsuc 1, d)))
  unfolding write_eeprom
  write_eeprom_lem stack bytes offset d = elim (Bool-cases (ltb 256 (length bytes + offset))) [
    | inl e ↦ inr (ground arith, rw e refl)
    | inr e ↦ inl (ground arith, rw e (write_cells_lem offset stack bytes d (ground arith)))
  ]
