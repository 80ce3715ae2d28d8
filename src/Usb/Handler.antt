-- ===== src/Usb/Handler.antt =====
-- drivers/usbslave/usb_isr.c: the interrupts of endpoint 0 and of the bus.
use mine_os.Prelude.{ℕ, zero, suc, not, Option, none, some, ◌∷◌, ◌==◌, if◌then◌else◌, bit_and}
use mine_os.Usb.{
  Op, Usb, History, Chip, DevState, Ep0State, clr_ep0_out_pkt_rdy, clr_ep0_sent_stall,
  clr_ep0_setup_end, usb_send_message,
}
use mine_os.Usb.Control.{Request, Device, handle_standard_input, handle_standard_output}

module _ (chip : Chip) (dev : Device) where
  -- FLUSH_EP0_FIFO
  unfoldable pub flush_ep0_fifo : ℕ → History → Option History
  flush_ep0_fifo zero h = none
  flush_ep0_fifo (suc fuel) h =
      let rest = flush_ep0_fifo fuel (Op.take ∷ h) in
      if chip.out_fifo_cnt h == 0 then some h else rest

  -- The end of a transfer: the FIFO is emptied, the bit is cleared and endpoint 0 starts again.
  unfoldable pub abandon : ℕ → Op → Usb → Option Usb
  abandon fuel clear u = elim (flush_ep0_fifo fuel u.log) [
    | none ↦ none
    | some h ↦ some (record u { ep0_state = Ep0State.init; log = clr_ep0_out_pkt_rdy ∷ clear ∷ h })
  ]

  abbrev pub class_request : Option (Request → Usb → Usb) → Request → Usb → Option Usb
  class_request none r u = none
  class_request (some f) r u = some (f r u)

  -- The request types: standard, class, and the others, which are ignored.
  unfoldable pub dispatch_request : Request → Usb → Option Usb
  dispatch_request r u =
      let kind = bit_and r.request_type 0x60 in
      if kind == 0
      then (if bit_and r.request_type 0x80 == 0
          then handle_standard_output dev r u
          else handle_standard_input dev r u)
      else (if kind == 0x20 then class_request dev.handle_class r u else some u)

  -- switch (ep0State)
  unfoldable pub continue_ep0 : ℕ → Usb → Option Usb
  continue_ep0 fuel u = elim u.ep0_state [
    | Ep0State.init ↦ some u
    | Ep0State.transmit ↦ usb_send_message chip fuel u
  ]

  abbrev pub then_continue : ℕ → Option Usb → Option Usb
  then_continue fuel none = none
  then_continue fuel (some u) = continue_ep0 fuel u

  -- Ep0Handler. r is the set-up packet that ep_rx_fifo would take from the FIFO.
  unfoldable pub ep0_handler : ℕ → Request → Usb → Option Usb
  ep0_handler fuel r u =
      let csr = chip.ep0_csr u.log in
      if not (bit_and csr 0x04 == 0)
      then abandon fuel clr_ep0_sent_stall u
      else (if not (bit_and csr 0x10 == 0)
          then abandon fuel clr_ep0_setup_end u
          else (if bit_and csr 0x01 == 0
              then continue_ep0 fuel u
              else then_continue fuel (dispatch_request r u)))

  -- The reset of IsrUsbd.
  unfoldable pub usb_reset : Usb → Option Usb
  usb_reset u = elim dev.reset [
    | none ↦ none
    | some f ↦ some (record (f u) { usbd_state = DevState.default })
  ]
