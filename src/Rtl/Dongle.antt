-- ===== src/Rtl/Dongle.antt =====
-- The dongle that the tuner drivers see behind their `rtl_dev` pointer (rtlsdr_i2c.h): the USB handle
-- and the strings of `struct rtlsdr_dev` of librtlsdr.c, with the functions that the drivers call.
pub mod Registers
use rtlsdrwrapper.Base.{ℕ, List, [], ◌∷◌, Bool, true, false, ◌&&◌, ◌==◌}
use rtlsdrwrapper.Base.Int.{ℤ, pos}
use rtlsdrwrapper.R82xx.State.{Bus}
use rtlsdrwrapper.Rtl.Usb.{Usb, i2c_write, i2c_read, set_gpio_output, set_gpio_bit}

-- A string is the list of its bytes before the 0.
pub record Dongle (H : Type 0) : Type 0 where
  pub handle : H
  pub manufact : List ℕ
  pub product : List ℕ

-- `strcmp (a, b) == 0`
unfoldable pub strings_equal : List ℕ → List ℕ → Bool
strings_equal [] [] = true
strings_equal [] (y ∷ ys) = false
strings_equal (x ∷ xs) [] = false
strings_equal (x ∷ xs) (y ∷ ys) = x == y && strings_equal xs ys

pub check_dongle_model : {H : Type 0} → List ℕ → List ℕ → Dongle H → Bool
unfolding strings_equal
check_dongle_model manufact product dev =
    strings_equal dev.manufact manufact && strings_equal dev.product product

-- "RTLSDRBlog" and "Blog V4", the only strings that a driver asks for.
abbrev pub rtlsdr_blog : List ℕ
rtlsdr_blog = 82 ∷ 84 ∷ 76 ∷ 83 ∷ 68 ∷ 82 ∷ 66 ∷ 108 ∷ 111 ∷ 103 ∷ []

abbrev pub blog_v4 : List ℕ
blog_v4 = 66 ∷ 108 ∷ 111 ∷ 103 ∷ 32 ∷ 86 ∷ 52 ∷ []

-- `stack` are the bytes in the `data` of `rtlsdr_read_reg` where a read of a GPIO register fails.
module _ {H : Type 0} (usb : Usb H) (stack : List ℕ) where
  unfoldable pub set_bias_tee_gpio : ℕ → Bool → Dongle H → ℤ × Dongle H
  unfolding set_gpio_output set_gpio_bit
  set_bias_tee_gpio gpio on dev =
      let d = set_gpio_output usb stack gpio dev.handle in
      (pos 0, record dev { handle = set_gpio_bit usb stack gpio on d })

  set_bias_tee : Bool → Dongle H → ℤ × Dongle H
  unfolding set_bias_tee_gpio
  set_bias_tee on dev = set_bias_tee_gpio 0 on dev

  -- The pointer is never null.
  unfoldable pub i2c_write_fn : ℕ → List ℕ → Dongle H → ℤ × Dongle H
  unfolding i2c_write
  i2c_write_fn addr buf dev =
      let (r, d) = i2c_write usb addr buf dev.handle in (r, record dev { handle = d })

  unfoldable pub i2c_read_fn : ℕ → ℕ → Dongle H → ℤ × List ℕ × Dongle H
  unfolding i2c_read
  i2c_read_fn addr len dev =
      let (r, bytes, d) = i2c_read usb addr len dev.handle in (r, bytes, record dev { handle = d })

  unfoldable pub dongle_bus : Bus (Dongle H)
  unfolding i2c_write_fn i2c_read_fn check_dongle_model set_bias_tee_gpio
  dongle_bus = record {
    i2c_write_fn = i2c_write_fn;
    i2c_read_fn = i2c_read_fn;
    check_dongle_model = check_dongle_model rtlsdr_blog blog_v4;
    set_bias_tee_gpio = set_bias_tee_gpio;
  }
