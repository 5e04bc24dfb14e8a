-- ===== src/Rtl/Dongle/Registers.antt =====
-- A tuner with registers behind the USB interface has registers for its driver.
use rtlsdrwrapper.Base.{ℕ, ◌+◌, ◌^◌, ◌≤◌, ◌<◌, ◌≡◌, sym, ap, subst, ◌∙◌, arith}
use rtlsdrwrapper.Base.{List, ◌∷◌, Bool, length, take, u8, take_all, length-take}
use native.Mathlib.Nat.{mod-eq_of_lt}
use rtlsdrwrapper.Base.Int.{pos}
use rtlsdrwrapper.R82xx.Shadow.Coherent.{HasRegisters, written}
use rtlsdrwrapper.Rtl.Usb.{
  Usb, iicb, sysb, index_in, index_out, i2c_write, i2c_read, write_array, read_array, read_reg,
  write_reg, set_gpio_output, set_gpio_bit,
}
use rtlsdrwrapper.Rtl.Dongle.{Dongle, i2c_write_fn, i2c_read_fn, set_bias_tee_gpio, dongle_bus}

-- A control transfer out returns at most the number of its bytes. The tuner at I2C address `addr` stores
-- the bytes of a transfer to the I2C block that returns their number; reads of that block and transfers
-- with the system block leave its registers alone.
pub record HasTuner {H : Type 0} (usb : Usb H) (addr : ℕ) : Type 0 where
  pub reg_of : H → ℕ → ℕ
  pub count_law :
      (value index n : ℕ) (bytes : List ℕ) (d : H)
      → (usb.ctrl_out value index bytes d).0 ≡ pos n
      → n ≤ length bytes
  pub store_law :
      (reg : ℕ) (val : List ℕ) (d : H)
      → (usb.ctrl_out addr (index_out iicb) (reg ∷ val) d).0 ≡ pos (length val + 1)
      → (j : ℕ)
      → reg_of (usb.ctrl_out addr (index_out iicb) (reg ∷ val) d).1 j ≡ written (reg_of d) reg val j
  pub read_law :
      (len : ℕ) (d : H) (j : ℕ) → reg_of (usb.ctrl_in addr (index_in iicb) len d).2 j ≡ reg_of d j
  pub sys_out_law :
      (value : ℕ) (bytes : List ℕ) (d : H) (j : ℕ)
      → reg_of (usb.ctrl_out value (index_out sysb) bytes d).1 j ≡ reg_of d j
  pub sys_in_law :
      (value len : ℕ) (d : H) (j : ℕ)
      → reg_of (usb.ctrl_in value (index_in sysb) len d).2 j ≡ reg_of d j

module _ {H : Type 0} (usb : Usb H) (stack : List ℕ) (addr : ℕ) (tuner : HasTuner usb addr) where
  write_reg-keeps :
      (address val len : ℕ) (d : H) (j : ℕ)
      → tuner.reg_of (write_reg usb sysb address val len d).1 j ≡ tuner.reg_of d j
  unfolding write_reg
  write_reg-keeps address val len d j = tuner.sys_out_law address _ d j

  read_reg-keeps :
      (address len : ℕ) (d : H) (j : ℕ)
      → tuner.reg_of (read_reg usb stack sysb address len d).1 j ≡ tuner.reg_of d j
  unfolding read_reg
  read_reg-keeps address len d j = tuner.sys_in_law address len d j

  gpio-keeps :
      (gpio : ℕ) (on : Bool) (dev : Dongle H) (j : ℕ)
      → tuner.reg_of (set_bias_tee_gpio usb stack gpio on dev).1.handle j
        ≡ tuner.reg_of dev.handle j
  unfolding set_bias_tee_gpio set_gpio_output set_gpio_bit
  gpio-keeps gpio on dev j = simp (write_reg-keeps, read_reg-keeps)

  cut_off : (buf : List ℕ) → length buf < 2 ^ 8 → take (u8 (length buf)) buf ≡ buf
  cut_off buf h = ap (λ n. take n buf) (mod-eq_of_lt h) ∙ take_all (length buf) buf (omega arith)

  -- A transfer that reports all its bytes was not cut off.
  short_enough :
      (buf : List ℕ) (d : H) → (i2c_write usb addr buf d).0 ≡ pos (length buf) → length buf < 2 ^ 8
  unfolding i2c_write write_array
  short_enough buf d all = omega (
    arith,
    tuner.count_law addr (index_out iicb) (length buf) (take (u8 (length buf)) buf) d all,
    length-take (u8 (length buf)) buf,
  )

  i2c_write-stores :
      (reg : ℕ) (val : List ℕ) (d : H)
      → (i2c_write usb addr (reg ∷ val) d).0 ≡ pos (length val + 1)
      → (j : ℕ)
      → tuner.reg_of (i2c_write usb addr (reg ∷ val) d).1 j ≡ written (tuner.reg_of d) reg val j
  unfolding i2c_write write_array
  i2c_write-stores reg val d all =
      subst
        (λ bytes.
          (usb.ctrl_out addr (index_out iicb) bytes d).0 ≡ pos (length val + 1)
          → (j : ℕ)
          → tuner.reg_of (usb.ctrl_out addr (index_out iicb) bytes d).1 j
            ≡ written (tuner.reg_of d) reg val j)
        (sym (cut_off (reg ∷ val) (short_enough (reg ∷ val) d (all ∙ ap pos (omega arith)))))
        (tuner.store_law reg val d) all

  -- Where a USB interface has a tuner with registers at an I2C address, the functions that librtlsdr
  -- passes to the R82xx driver, with lengths cut off to eight bits and the GPIO lines set through the system
  -- block, give the driver a chip with these registers at this address.
  pub dongle_bus-HasRegisters : HasRegisters (dongle_bus usb stack) addr
  unfolding dongle_bus i2c_write_fn i2c_read_fn i2c_read read_array
  dongle_bus-HasRegisters = record {
    reg_of = λ dev. tuner.reg_of dev.handle;
    write_law = λ reg val dev all. i2c_write-stores reg val dev.handle all;
    read_law = λ len dev j. tuner.read_law (u8 len) dev.handle j;
    gpio_law = gpio-keeps;
  }
