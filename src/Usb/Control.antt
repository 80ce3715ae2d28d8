-- ===== src/Usb/Control.antt =====
-- drivers/usbslave/usb_isr.c: the standard requests of endpoint 0.
use mine_os.Prelude.{
  ℕ, zero, suc, ◌+◌, ◌*◌, ◌/◌, ◌%◌, ◌^◌, Bool, true, false, ◌&&◌, Option, none, some, ltb, ◌==◌,
  if◌then◌else◌, bit_and, bit_or,
}
use mine_os.Links.{update}
use mine_os.UsbBuffer.{usb_buf_init}
use mine_os.Usb.{
  Op, Usb, Status, DevState, Ep0State, logged, clr_ep0_out_pkt_rdy, clr_ep0_outpktrdy_dataend,
  set_ep0_inpktrdy_dataend,
}

-- struct usb_ctrlrequest
pub record Request : Type 0 where
  pub request_type : ℕ
  pub request : ℕ
  pub value : ℕ
  pub index : ℕ
  pub length : ℕ

-- The bytes behind a pointer, with the size that the source sends of them.
pub record Descriptor : Type 0 where
  pub buf : ℕ → ℕ
  pub size : ℕ

-- usbdev; `none` is a null pointer.
pub record Device : Type 0 where
  pub dev_desc : Descriptor
  pub config_desc : Descriptor
  pub config_all : Descriptor
  pub interface_desc : Descriptor
  pub endpoint_desc : ℕ → Option Descriptor
  pub string_desc : ℕ → Option Descriptor
  pub report_desc : Option Descriptor
  pub handle_class : Option (Request → Usb → Usb)
  pub reset : Option (Usb → Usb)

-- A number of n bytes in memory, least byte first.
abbrev pub number : ℕ → ℕ → Descriptor
number n v = record { buf = λ j. v / 2 ^ (8 * j) % 2 ^ 8; size = n }

-- USB_BUF_INIT_SIZE, and USB_BUF_INIT with the size of what the pointer is declared to point to.
unfoldable pub buf_init : Descriptor → Usb → Option Usb
buf_init d u = elim (usb_buf_init d.buf d.size) [
  | none ↦ none
  | some b ↦ some (record u { ub = b; ep0_state = Ep0State.transmit })
]

-- USB_BUF_INIT_TRUNCATION_SIZE
abbrev pub truncated : ℕ → Descriptor → Descriptor
truncated length d = record d { size = if ltb d.size length then d.size else length }

-- assert(p); USB_BUF_INIT(p)
abbrev pub buf_init_some : Option Descriptor → Usb → Option Usb
buf_init_some none u = none
buf_init_some (some d) u = buf_init d u

abbrev pub is_some {ℓ} : {A : Type ℓ} → Option A → Bool
is_some none = false
is_some (some a) = true

-- ep_tx_fifo(EP0, d, n), whose assertions hold at the one place where it is called.
abbrev pub ep_tx_fifo : (ℕ → ℕ) → ℕ → ℕ → Usb → Usb
ep_tx_fifo b i zero u = u
ep_tx_fifo b i (suc n) u = ep_tx_fifo b (i + 1) n (logged (Op.fifo (b i)) u)

-- USB_RECIP_MASK
abbrev pub recipient : Request → ℕ
recipient r = bit_and r.request_type 0x1f

abbrev pub low_byte : ℕ → ℕ
low_byte x = bit_and x 0xff

abbrev pub set_status : Usb → Status → Usb
set_status u s = record u { status = s }

abbrev pub and_then : Option Usb → (Usb → Usb) → Option Usb
and_then none f = none
and_then (some u) f = some (f u)

-- assert(p); USB_BUF_INIT_TRUNCATION_SIZE(p, size)
abbrev pub truncated_some : ℕ → Option Descriptor → Usb → Option Usb
truncated_some length none u = none
truncated_some length (some d) u = buf_init (truncated length d) u

-- USB_DT_DEVICE: before the address is set only the first packet is sent.
unfoldable pub send_dev_desc : Descriptor → DevState → Usb → Option Usb
send_dev_desc d DevState.default u = some (logged set_ep0_inpktrdy_dataend (ep_tx_fifo d.buf 0 8 u))
send_dev_desc d s u = buf_init d u

module _ (dev : Device) where
  -- USB_REQ_GET_STATUS of an endpoint.
  unfoldable pub get_endpoint_status : ℕ → Usb → Option Usb
  get_endpoint_status w u =
      let of = λ (k : ℕ). buf_init (number 2 (u.status.endpoint k)) u in
      if w == 0
      then of 0
      else (if w == 0x81
          then (if is_some (dev.endpoint_desc 0) then of 1 else none)
          else (if w == 0x82
              then (if is_some (dev.endpoint_desc 1) then of 2 else none)
              else (if w == 0x03
                  then (if is_some (dev.endpoint_desc 2) then of 3 else none)
                  else some u)))

  -- USB_REQ_GET_STATUS, up to the acknowledgement.
  unfoldable pub get_status : Request → Usb → Option Usb
  get_status r u =
      if recipient r == 0
      then buf_init (number 2 u.status.device) u
      else (if recipient r == 1
          then buf_init (number 2 0) (set_status u (record u.status { interface = 0 }))
          else (if recipient r == 2 then get_endpoint_status (low_byte r.index) u else some u))

  unfoldable pub get_string : Request → Usb → Option Usb
  get_string r u =
      let k = low_byte r.value in
      if ltb k 4
      then truncated_some r.length (dev.string_desc k) u
      else some (record u { ep0_state = Ep0State.init })

  -- USB_REQ_GET_DESCRIPTOR, after the acknowledgement.
  unfoldable pub get_descriptor : Request → Usb → Option Usb
  get_descriptor r u =
      let kind = r.value / 2 ^ 8 in
      let k = low_byte r.value in
      if kind == 1
      then send_dev_desc dev.dev_desc u.usbd_state u
      else (if kind == 2
          then (if ltb 9 r.length then buf_init dev.config_all u else buf_init dev.config_desc u)
          else (if kind == 3
              then get_string r u
              else (if kind == 4
                  then buf_init dev.interface_desc u
                  else (if kind == 5
                      then (if k == 0x81
                          then buf_init_some (dev.endpoint_desc 0) u
                          else (if k == 0x82
                              then buf_init_some (dev.endpoint_desc 1) u
                              else (if k == 0x03
                                  then buf_init_some (dev.endpoint_desc 2) u
                                  else some u)))
                      else (if kind == 0x22 then buf_init_some dev.report_desc u else some u)))))

  unfoldable pub handle_standard_input : Request → Usb → Option Usb
  handle_standard_input r u =
      let u₁ = logged clr_ep0_out_pkt_rdy u in
      if r.request == 0x00
      then and_then (get_status r u) (logged clr_ep0_out_pkt_rdy)
      else (if r.request == 0x06
          then get_descriptor r u₁
          else (if r.request == 0x08
              then buf_init (number 1 u.status.configuration_value) u₁
              else (if r.request == 0x0a
                  then buf_init (number 1 u.status.alternate_setting) u₁
                  else (if r.request == 0x0c
                      then some (record u₁ { ep0_state = Ep0State.init })
                      else some (record (logged clr_ep0_outpktrdy_dataend u) {
                        ep0_state = Ep0State.init;
                      })))))

  -- The endpoints of CLEAR_FEATURE and SET_FEATURE, which get v.
  unfoldable pub set_endpoint : ℕ → ℕ → Usb → Option Usb
  set_endpoint w v u =
      let to =
        λ (k : ℕ). set_status u (record u.status { endpoint = update u.status.endpoint k v }) in
      if w == 0
      then some (to 0)
      else (if w == 0x81
          then (if is_some (dev.endpoint_desc 0) then some (to 1) else none)
          else (if w == 0x83
              then (if is_some (dev.endpoint_desc 1) then some (to 2) else none)
              else (if w == 0x03
                  then (if is_some (dev.endpoint_desc 2) then some (to 3) else none)
                  else some u)))

  abbrev pub set_device : ℕ → Usb → Usb
  set_device v u = set_status u (record u.status { device = v })

  unfoldable pub clear_feature : Request → Usb → Option Usb
  clear_feature r u =
      if recipient r == 0
      then (if low_byte r.index == 1
          then some (set_device (bit_and u.status.device 0xfffd) u)
          else some u)
      else (if recipient r == 2 && low_byte r.value == 0
          then set_endpoint (low_byte r.index) 0 u
          else some u)

  unfoldable pub set_feature : Request → Usb → Option Usb
  set_feature r u =
      if recipient r == 0
      then (if low_byte r.value == 1
          then some (set_device (bit_or u.status.device 2) u)
          else some u)
      else (if recipient r == 2 && low_byte r.value == 0
          then set_endpoint (low_byte r.index) 1 u
          else some u)

  -- The request, before the acknowledgement.
  unfoldable pub standard_output : Request → Usb → Option Usb
  standard_output r u =
      let v = low_byte r.value in
      if r.request == 0x01
      then clear_feature r u
      else (if r.request == 0x03
          then set_feature r u
          else (if r.request == 0x05
              then some
                  (record (logged (Op.address (bit_or v 0x80)) u) { usbd_state = DevState.address })
              else (if r.request == 0x09
                  then some (record u {
                    status = record u.status { configuration_value = v };
                    usbd_state = DevState.configured;
                  })
                  else (if r.request == 0x0b
                      then some (record u { status = record u.status { alternate_setting = v } })
                      else some u))))

  unfoldable pub handle_standard_output : Request → Usb → Option Usb
  handle_standard_output r u =
      and_then (standard_output r u)
        (λ u'. record (logged clr_ep0_outpktrdy_dataend u') { ep0_state = Ep0State.init })
