-- ===== src/Rtl/Usb.antt =====
-- Register access of librtlsdr.c (`rtlsdr_read_array` to `rtlsdr_set_i2c_repeater`): the blocks and
-- words of the RTL2832U behind USB control transfers. A transfer is libusb's, a parameter.
use rtlsdrwrapper.Base.{ℕ, bit_and, bit_or, List, [], ◌∷◌, Bool, false}
use rtlsdrwrapper.Base.{◌==◌, if◌then◌else◌, get_or, take, length, u8, u16, bit_clear, ◌<<<◌, ◌>>>◌}
use rtlsdrwrapper.Base.Int.{ℤ, pos, negsuc}

-- `libusb_control_transfer` without the constants of every call: the value and index of the setup
-- packet and the data. A transfer in gives the bytes that it stored.
pub record Usb (S : Type 0) : Type 0 where
  pub ctrl_out : ℕ → ℕ → List ℕ → S → ℤ × S
  pub ctrl_in : ℕ → ℕ → ℕ → S → ℤ × List ℕ × S

-- `enum blocks`
pub data Block : Type 0 where
  demodb usbb sysb tunb romb irb iicb : Block

abbrev pub number : Block → ℕ
number demodb = 0
number usbb = 1
number sysb = 2
number tunb = 3
number romb = 4
number irb = 5
number iicb = 6

-- `enum sys_reg` and `enum usb_reg`, as far as they are used.
abbrev pub demod_ctl : ℕ
demod_ctl = 0x3000

abbrev pub gpo : ℕ
gpo = 0x3001

abbrev pub gpoe : ℕ
gpoe = 0x3003

abbrev pub gpd : ℕ
gpd = 0x3004

abbrev pub demod_ctl_1 : ℕ
demod_ctl_1 = 0x300b

abbrev pub usb_sysctl : ℕ
usb_sysctl = 0x2000

abbrev pub usb_epa_ctl : ℕ
usb_epa_ctl = 0x2148

abbrev pub usb_epa_maxpkt : ℕ
usb_epa_maxpkt = 0x2158

abbrev pub index_in : Block → ℕ
index_in block = number block <<< 8

abbrev pub index_out : Block → ℕ
index_out block = bit_or (number block <<< 8) 0x10

-- `rc == n` on a signed return value.
abbrev pub is_len : ℤ → ℕ → Bool
is_len (pos m) n = m == n
is_len (negsuc m) n = false

-- The bytes of a word, the high one first where two are sent.
pub word_bytes : ℕ → ℕ → List ℕ
word_bytes len val =
    take len ((if len == 1 then bit_and val 0xff else u8 (val >>> 8)) ∷ bit_and val 0xff ∷ [])

-- `reg = (data[1] << 8) | data[0]`; bytes that no transfer has stored are those of `stack`.
pub word_of : List ℕ → List ℕ → ℕ
word_of stack bytes =
    bit_or (get_or bytes 1 (get_or stack 1 0) <<< 8) (get_or bytes 0 (get_or stack 0 0))

module _ {S : Type 0} (usb : Usb S) where
  unfoldable pub read_array : Block → ℕ → ℕ → S → ℤ × List ℕ × S
  read_array block addr len d = usb.ctrl_in addr (index_in block) len d

  unfoldable pub write_array : Block → ℕ → List ℕ → S → ℤ × S
  write_array block addr array d = usb.ctrl_out addr (index_out block) array d

  pub i2c_write_reg : ℕ → ℕ → ℕ → S → ℤ × S
  unfolding write_array
  i2c_write_reg i2c_addr reg val d = write_array iicb i2c_addr (reg ∷ val ∷ []) d

  pub i2c_read_reg : ℕ → ℕ → S → ℕ × S
  unfolding write_array read_array
  i2c_read_reg i2c_addr reg d =
      let (r, d1) = write_array iicb i2c_addr (reg ∷ []) d in
      let (r', bytes, d2) = read_array iicb i2c_addr 1 d1 in (get_or bytes 0 0, d2)

  -- The length is cut off to eight bits on its way into `rtlsdr_write_array` and `rtlsdr_read_array`.
  unfoldable pub i2c_write : ℕ → List ℕ → S → ℤ × S
  unfolding write_array
  i2c_write i2c_addr buffer d = write_array iicb i2c_addr (take (u8 (length buffer)) buffer) d

  unfoldable pub i2c_read : ℕ → ℕ → S → ℤ × List ℕ × S
  unfolding read_array
  i2c_read i2c_addr len d = read_array iicb i2c_addr (u8 len) d

  -- The value of a register, or of what lies in `stack` where the transfer fails.
  unfoldable pub read_reg : List ℕ → Block → ℕ → ℕ → S → ℕ × S
  unfolding word_of
  read_reg stack block addr len d =
      let (r, bytes, d') = usb.ctrl_in addr (index_in block) len d in (word_of stack bytes, d')

  unfoldable pub write_reg : Block → ℕ → ℕ → ℕ → S → ℤ × S
  unfolding word_bytes
  write_reg block addr val len d = usb.ctrl_out addr (index_out block) (word_bytes len val) d

  pub demod_read_reg : List ℕ → ℕ → ℕ → ℕ → S → ℕ × S
  unfolding word_of
  demod_read_reg stack page addr len d =
      let (r, bytes, d') = usb.ctrl_in (u16 (bit_or (addr <<< 8) 0x20)) page len d in
      (word_of stack bytes, d')

  -- True where the function returns 0, false where it returns -1. A read of a status register ends
  -- every write; its result is dropped.
  pub demod_write_reg : ℕ → ℕ → ℕ → ℕ → S → Bool × S
  unfolding word_bytes demod_read_reg
  demod_write_reg page addr val len d =
      let (r, d') =
        usb.ctrl_out (u16 (bit_or (addr <<< 8) 0x20)) (bit_or 0x10 page) (word_bytes len val) d in
      let (status, d2) = demod_read_reg [] 0x0a 0x01 1 d' in (is_len r len, d2)

  -- The GPIO lines; `stack` as for `read_reg`. The output register is written with the low byte.
  unfoldable pub set_gpio_bit : List ℕ → ℕ → Bool → S → S
  unfolding read_reg write_reg
  set_gpio_bit stack gpio val d =
      let bit = u8 (1 <<< gpio) in
      let (r, d1) = read_reg stack sysb gpo 1 d in
      (write_reg sysb gpo (if val then bit_or r bit else bit_clear 16 r bit) 1 d1).1

  unfoldable pub set_gpio_output : List ℕ → ℕ → S → S
  unfolding read_reg write_reg
  set_gpio_output stack gpio d =
      let bit = u8 (1 <<< gpio) in
      let (r, d1) = read_reg stack sysb gpd 1 d in
      let (w, d2) = write_reg sysb gpd (bit_clear 16 r bit) 1 d1 in
      let (r', d3) = read_reg stack sysb gpoe 1 d2 in (write_reg sysb gpoe (bit_or r' bit) 1 d3).1

  pub set_i2c_repeater : Bool → S → S
  unfolding demod_write_reg
  set_i2c_repeater on d = (demod_write_reg 1 0x01 (if on then 0x18 else 0x10) 1 d).1
