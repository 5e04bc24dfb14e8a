-- ===== src/Rtl/Eeprom.antt =====
-- `rtlsdr_write_eeprom` and `rtlsdr_read_eeprom` of librtlsdr.c. The result is the return value.
pub mod Laws
use rtlsdrwrapper.Base.{ℕ, zero, suc, ◌+◌, ◌-◌, Bool, true, false, List, [], ◌∷◌, ◌++◌, ltb, ◌==◌}
use rtlsdrwrapper.Base.{if◌then◌else◌, get_or, length, u8}
use rtlsdrwrapper.Base.Int.{is_negative, ℤ, pos, negsuc}
use rtlsdrwrapper.Rtl.Usb.{Usb, iicb, write_array, read_array, is_len}

abbrev pub eeprom_addr : ℕ
eeprom_addr = 0xa0

module _ {S : Type 0} (usb : Usb S) where
  -- The byte at `cell` as the driver sees it: one that the transfer does not store stays `old`.
  unfoldable pub peek : ℕ → ℕ → S → ℕ × S
  peek cell old d =
      let (r, d1) = write_array usb iicb eeprom_addr (cell ∷ []) d in
      let (r', bytes, d2) = read_array usb iicb eeprom_addr 1 d1 in (get_or bytes 0 old, d2)

  -- The loop; `old` is what `cmd[1]` holds.
  pub write_cells : ℕ → ℕ → List ℕ → S → ℤ × S
  unfolding peek
  write_cells cell old [] d = (pos 0, d)
  write_cells cell old (byte ∷ bytes) d =
      let (seen, d1) = peek (u8 cell) old d in
      let (r, d2) = write_array usb iicb eeprom_addr (u8 cell ∷ byte ∷ []) d1 in
      let skipped = write_cells (cell + 1) seen bytes d1 in
      let rest = write_cells (cell + 1) byte bytes d2 in
      if seen == byte then skipped else if is_len r 2 then rest else (negsuc 2, d2)

  -- `stack` is what the buffer holds at first.
  pub write_eeprom : ℕ → List ℕ → ℕ → S → ℤ × S
  unfolding write_cells
  write_eeprom stack bytes offset d =
      if ltb 256 (length bytes + offset) then (negsuc 1, d) else write_cells offset stack bytes d

  pub read_cells : ℕ → ℤ → S → ℤ × List ℕ × S
  read_cells zero r d = (r, [], d)
  read_cells (suc n) r d =
      let (r1, bytes, d1) = read_array usb iicb eeprom_addr 1 d in
      let (r2, rest, d2) = read_cells n r1 d1 in
      if is_negative r1 then (negsuc 2, [], d1) else (r2, bytes ++ rest, d2)

  pub read_eeprom : ℕ → ℕ → S → ℤ × List ℕ × S
  unfolding read_cells
  read_eeprom offset len d =
      let (r, d1) = write_array usb iicb eeprom_addr (u8 offset ∷ []) d in
      if ltb 256 (len + offset)
      then (negsuc 1, [], d)
      else if is_negative r
      then (negsuc 2, [], d1)
      else read_cells len r d1
