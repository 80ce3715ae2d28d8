-- ===== src/Usb.antt =====
-- drivers/usbslave/usb_lib.c: the transmission of a message over endpoint 0 in packets.
--
-- What the driver does on the registers of endpoint 0 is a history, the latest operation first;
-- INDEX_REG, which selects the endpoint that the shared registers belong to, is left out of it. The
-- controller is hardware: what it answers is a function of the history. Waiting runs on fuel, and
-- `none` means that the fuel ran out or that an assertion failed.
pub mod Control
pub mod Handler
pub mod Packets
pub mod Feature
pub mod Bounds
use mine_os.Prelude.{
  ℕ, zero, suc, ◌+◌, ◌-◌, ◌*◌, ◌/◌, ◌%◌, ◌^◌, Bool, true, false, not, ◌&&◌, Option, none, some,
  List, [], ◌∷◌, ltb, leb, ◌==◌, if◌then◌else◌, bit_and, bit_or,
}
use mine_os.UsbBuffer.{UsbBuf, usb_buf_remain}

-- A byte written to the FIFO, a byte taken from it, a read of EP0_CSR, the assignment
-- EP0_CSR = EP0_CSR & ~clear | set, and a write of FUNC_ADDR_REG.
pub data Op : Type 0 where
  fifo : ℕ → Op
  take : Op
  poll : Op
  csr : (clear set : ℕ) → Op
  address : ℕ → Op

abbrev pub History : Type 0
History = List Op

pub record Chip : Type 0 where
  pub ep0_csr : History → ℕ
  pub out_fifo_cnt : History → ℕ

pub data DevState : Type 0 where
  powered : DevState
  default : DevState
  address : DevState
  configured : DevState
  suspended : DevState

pub data Ep0State : Type 0 where
  init : Ep0State
  transmit : Ep0State

-- g_status; the bits 0 and 1 of `device` are self_powered and remote_wakeup.
pub record Status : Type 0 where
  pub configuration_value : ℕ
  pub alternate_setting : ℕ
  pub device : ℕ
  pub interface : ℕ
  pub endpoint : ℕ → ℕ

-- ub[0], ep0State, usbd_state and g_status, and the history.
pub record Usb : Type 0 where
  pub ub : UsbBuf
  pub ep0_state : Ep0State
  pub usbd_state : DevState
  pub status : Status
  pub log : History

abbrev pub ep0_pkt_size : ℕ
ep0_pkt_size = 8

abbrev pub logged : Op → Usb → Usb
logged op u = record u { log = op ∷ u.log }

abbrev pub clr_ep0_out_pkt_rdy : Op
clr_ep0_out_pkt_rdy = Op.csr 0xc0 0x40

abbrev pub clr_ep0_outpktrdy_dataend : Op
clr_ep0_outpktrdy_dataend = Op.csr 0xc0 0x48

abbrev pub set_ep0_in_pkt_rdy : Op
set_ep0_in_pkt_rdy = Op.csr 0xc0 0x02

abbrev pub set_ep0_inpktrdy_dataend : Op
set_ep0_inpktrdy_dataend = Op.csr 0xc0 0x0a

abbrev pub clr_ep0_setup_end : Op
clr_ep0_setup_end = Op.csr 0xc0 0x80

abbrev pub clr_ep0_sent_stall : Op
clr_ep0_sent_stall = Op.csr 0xc4 0

-- The loop of usb_buf_read_const with the FIFO as its destination, with n rounds left.
unfoldable pub fifo_loop : ℕ → UsbBuf → History → UsbBuf × History
fifo_loop zero b h = (b, h)
fifo_loop (suc n) b h =
    let rest = fifo_loop n (record b { count = b.count + 1 }) (Op.fifo (b.buf b.count) ∷ h) in
    if ltb b.count b.size then rest else (b, h)

-- usb_buf_tx on endpoint 0.
unfoldable pub usb_buf_tx : Usb → Usb
usb_buf_tx u =
    let remain = usb_buf_remain u.ub in
    let n = (if leb ep0_pkt_size remain then ep0_pkt_size else remain) in
    let (b, h) = fifo_loop n u.ub u.log in if ltb 0 remain then record u { ub = b; log = h } else u

unfoldable pub usb_buf_ep0_tx : Usb → Usb
usb_buf_ep0_tx u =
    let remain = usb_buf_remain u.ub in
    let u₁ = (if ltb 0 remain then usb_buf_tx u else u) in
    if ltb ep0_pkt_size remain
    then logged set_ep0_in_pkt_rdy u₁
    else (if remain == ep0_pkt_size
        then logged set_ep0_in_pkt_rdy u₁
        else logged set_ep0_inpktrdy_dataend (record u₁ { ep0_state = Ep0State.init }))

module _ (chip : Chip) where
  -- WAIT_EP0_IN_PKT
  unfoldable pub wait_ep0_in_pkt : ℕ → History → Option History
  wait_ep0_in_pkt zero h = none
  wait_ep0_in_pkt (suc fuel) h =
      let rest = wait_ep0_in_pkt fuel (Op.poll ∷ h) in
      if bit_and (chip.ep0_csr h) 0x02 == 0 then some (Op.poll ∷ h) else rest

  -- usb_send_message(EP0)
  unfoldable pub usb_send_message : ℕ → Usb → Option Usb
  usb_send_message fuel u = elim (wait_ep0_in_pkt fuel u.log) [
    | none ↦ none
    | some h ↦ some (usb_buf_ep0_tx (record u { log = h }))
  ]
