-- ===== src/UsbBuffer.antt =====
-- drivers/usbslave/buff.c: a buffer that is read from its start to its end.
--
-- The memory behind a destination pointer is a function; `none` is a failed assertion, of a size of
-- 0. (The null pointers that the assertions exclude as well do not occur.)
pub mod Read
use mine_os.Prelude.{ℕ, zero, suc, ◌+◌, ◌-◌, Option, none, some, ltb, ◌==◌, if◌then◌else◌, Bool}
use mine_os.Links.{update}

pub record UsbBuf : Type 0 where
  pub buf : ℕ → ℕ
  pub size : ℕ
  pub count : ℕ

abbrev pub Memory : Type 0
Memory = ℕ → ℕ

unfoldable pub usb_buf_init : (ℕ → ℕ) → ℕ → Option UsbBuf
usb_buf_init buf size =
    if size == 0 then none else some (record { buf = buf; size = size; count = 0 })

-- `none` is the return value 0, and the write goes to `dest`.
unfoldable pub usb_buf_read_single : UsbBuf → Memory → ℕ → Option (UsbBuf × Memory)
usb_buf_read_single ub m dest =
    if ltb ub.count ub.size
    then some (record ub { count = ub.count + 1 }, update m dest (ub.buf ub.count))
    else none

-- The loop of the two reads: `step` is 1 where the destination moves on and 0 where it stays, n
-- rounds are left after i.
unfoldable pub read_loop : ℕ → ℕ → ℕ → UsbBuf → Memory → ℕ → ℕ × UsbBuf × Memory
read_loop step zero i ub m dest = (i, ub, m)
read_loop step (suc n) i ub m dest = elim (usb_buf_read_single ub m dest) [
  | none ↦ (i, ub, m)
  | some (ub', m') ↦ read_loop step n (i + 1) ub' m' (dest + step)
]

unfoldable pub usb_buf_read_inc : UsbBuf → Memory → ℕ → ℕ → Option (ℕ × UsbBuf × Memory)
usb_buf_read_inc ub m dest size = if size == 0 then none else some (read_loop 1 size 0 ub m dest)

unfoldable pub usb_buf_read_const : UsbBuf → Memory → ℕ → ℕ → Option (ℕ × UsbBuf × Memory)
usb_buf_read_const ub m dest size = if size == 0 then none else some (read_loop 0 size 0 ub m dest)

unfoldable pub usb_buf_remain : UsbBuf → ℕ
usb_buf_remain ub = ub.size - ub.count

unfoldable pub usb_buf_count : UsbBuf → ℕ
usb_buf_count ub = ub.count
