-- ===== src/Usb/Bounds.antt =====
-- drivers/usbslave: the place of endpoint 0's buffer stays within its size, so that what remains,
-- an unsigned difference, does not wrap.
use mine_os.Prelude.{
  ℕ, zero, suc, ◌+◌, ◌≤◌, ◌==◌, ◌≡◌, refl, ◌∷◌, Bool, true, false, arith, if◌then◌else◌, Bool-cases,
  Option-cases, inl, inr, Option, some, none, ltb, ltb→lt,
}
use mine_os.UsbBuffer.{UsbBuf, usb_buf_init, usb_buf_remain}
use mine_os.Usb.{
  Op, History, Chip, Usb, DevState, Ep0State, logged, fifo_loop, usb_buf_tx, usb_buf_ep0_tx,
  wait_ep0_in_pkt, usb_send_message,
}
use mine_os.Usb.Control.{
  Request, Descriptor, Device, buf_init, buf_init_some, ep_tx_fifo, and_then, truncated_some,
  send_dev_desc, get_endpoint_status, get_status, get_string, get_descriptor, handle_standard_input,
  set_endpoint, clear_feature, set_feature, standard_output, handle_standard_output,
}
use mine_os.Usb.Handler.{
  flush_ep0_fifo, abandon, class_request, dispatch_request, continue_ep0, then_continue,
  ep0_handler,
}

abbrev pub IsBounded : Usb → Type 0
IsBounded u = u.ub.count ≤ u.ub.size

-- What a result satisfies, where there is one.
pub data Keeps : Option Usb → Type 0 where
  failed : Keeps none
  kept : {u : Usb} → IsBounded u → Keeps (some u)

fifo_loop-le :
    (n : ℕ) (b : UsbBuf) (h : History)
    → b.count ≤ b.size
    → (fifo_loop n b h).0.count ≤ (fifo_loop n b h).0.size
unfolding fifo_loop
fifo_loop-le zero b h l = l
fifo_loop-le (suc n) b h l = elim (Bool-cases (ltb b.count b.size)) [
  | inl c ↦ rw c (
      fifo_loop-le n (record b { count = b.count + 1 }) (Op.fifo (b.buf b.count) ∷ h)
        (omega (arith, ltb→lt b.count b.size c)))
  | inr c ↦ rw c l
]

usb_buf_tx-IsBounded : (u : Usb) → IsBounded u → IsBounded (usb_buf_tx u)
unfolding usb_buf_tx
usb_buf_tx-IsBounded u l = elim (Bool-cases (ltb 0 (usb_buf_remain u.ub))) [
  | inl c ↦ rw c (fifo_loop-le _ u.ub u.log l)
  | inr c ↦ rw c l
]

usb_buf_ep0_tx-IsBounded : (u : Usb) → IsBounded u → IsBounded (usb_buf_ep0_tx u)
unfolding usb_buf_ep0_tx
usb_buf_ep0_tx-IsBounded u l = ground (arith, usb_buf_tx-IsBounded u l)

Keeps-if : (b : Bool) {x y : Option Usb} → Keeps x → Keeps y → Keeps (if b then x else y)
Keeps-if true k l = k
Keeps-if false k l = l

-- A choice of results is as good as its parts.
Keeps-and_then :
    (f : Usb → Usb) {o : Option Usb}
    → ((u : Usb) → IsBounded u → IsBounded (f u))
    → Keeps o
    → Keeps (and_then o f)
Keeps-and_then f keep failed = failed
Keeps-and_then f keep (kept {u} k) = kept (keep u k)

buf_init-Keeps : (d : Descriptor) (u : Usb) → Keeps (buf_init d u)
unfolding buf_init usb_buf_init
buf_init-Keeps d u = elim (Bool-cases (d.size == 0)) [
  | inl c ↦ rw (buf_init, usb_buf_init, c) failed
  | inr c ↦ rw (buf_init, usb_buf_init, c) (kept (omega arith))
]

buf_init_some-Keeps : (o : Option Descriptor) (u : Usb) → Keeps (buf_init_some o u)
buf_init_some-Keeps none u = failed
buf_init_some-Keeps (some d) u = buf_init-Keeps d u

ep_tx_fifo-IsBounded :
    (b : ℕ → ℕ) (i n : ℕ) (u : Usb) → IsBounded u → IsBounded (ep_tx_fifo b i n u)
ep_tx_fifo-IsBounded b i zero u l = l
ep_tx_fifo-IsBounded b i (suc n) u l = ep_tx_fifo-IsBounded b (i + 1) n (logged (Op.fifo (b i)) u) l

truncated_some-Keeps : (n : ℕ) (o : Option Descriptor) (u : Usb) → Keeps (truncated_some n o u)
truncated_some-Keeps n none u = failed
truncated_some-Keeps n (some d) u = buf_init-Keeps _ u

send_dev_desc-Keeps :
    (d : Descriptor) (s : DevState) (u : Usb) → IsBounded u → Keeps (send_dev_desc d s u)
unfolding send_dev_desc
send_dev_desc-Keeps d DevState.powered u l = buf_init-Keeps d u
send_dev_desc-Keeps d DevState.default u l = kept (ep_tx_fifo-IsBounded d.buf 0 8 u l)
send_dev_desc-Keeps d DevState.address u l = buf_init-Keeps d u
send_dev_desc-Keeps d DevState.configured u l = buf_init-Keeps d u
send_dev_desc-Keeps d DevState.suspended u l = buf_init-Keeps d u

ruleset keeping = (
  Keeps-if, failed, kept, buf_init-Keeps, buf_init_some-Keeps, truncated_some-Keeps,
  send_dev_desc-Keeps,
)

module _ (dev : Device) where
  get_status-Keeps : (r : Request) (u : Usb) → IsBounded u → Keeps (get_status dev r u)
  unfolding get_status get_endpoint_status
  get_status-Keeps r u l = search keeping depth 20

  get_descriptor-Keeps : (r : Request) (u : Usb) → IsBounded u → Keeps (get_descriptor dev r u)
  unfolding get_descriptor get_string
  get_descriptor-Keeps r u l = search keeping depth 20

  input-Keeps : (r : Request) (u : Usb) → IsBounded u → Keeps (handle_standard_input dev r u)
  unfolding handle_standard_input
  input-Keeps r u l =
      search (keeping, get_descriptor-Keeps, get_status-Keeps, Keeps-and_then) depth 20

  output-Keeps : (r : Request) (u : Usb) → IsBounded u → Keeps (handle_standard_output dev r u)
  unfolding handle_standard_output standard_output clear_feature set_feature set_endpoint
  output-Keeps r u l = Keeps-and_then _ (λ v k. k) (search keeping depth 20)

module _ (chip : Chip) (dev : Device) where
  send-Keeps : (fuel : ℕ) (u : Usb) → IsBounded u → Keeps (usb_send_message chip fuel u)
  unfolding usb_send_message
  send-Keeps fuel u l = elim (Option-cases (wait_ep0_in_pkt chip fuel u.log)) [
    | inl e ↦ rw (usb_send_message, e) failed
    | inr (h, e) ↦
        rw (usb_send_message, e) (kept (usb_buf_ep0_tx-IsBounded (record u { log = h }) l))
  ]

  continue-Keeps : (fuel : ℕ) (u : Usb) → IsBounded u → Keeps (continue_ep0 chip dev fuel u)
  unfolding continue_ep0
  continue-Keeps fuel u l =
      elim u.ep0_state
        as (λ s. Keeps (elim s as (λ _. Option Usb) [
          | Ep0State.init ↦ some u
          | Ep0State.transmit ↦ usb_send_message chip fuel u
        ])) [ Ep0State.init ↦ kept l | Ep0State.transmit ↦ send-Keeps fuel u l ]

  abandon-Keeps : (fuel : ℕ) (op : Op) (u : Usb) → IsBounded u → Keeps (abandon chip dev fuel op u)
  unfolding abandon
  abandon-Keeps fuel op u l = elim (Option-cases (flush_ep0_fifo chip dev fuel u.log)) [
    | inl e ↦ rw (abandon, e) failed
    | inr (h, e) ↦ rw (abandon, e) (kept l)
  ]

  class-Keeps :
      (o : Option (Request → Usb → Usb)) (r : Request) (u : Usb)
      → ((f : Request → Usb → Usb) → o ≡ some f → IsBounded (f r u))
      → Keeps (class_request chip dev o r u)
  class-Keeps none r u keep = failed
  class-Keeps (some f) r u keep = kept (keep f refl)

  dispatch_request-Keeps :
      (r : Request) (u : Usb)
      → ((f : Request → Usb → Usb) → dev.handle_class ≡ some f → IsBounded (f r u))
      → IsBounded u
      → Keeps (dispatch_request chip dev r u)
  unfolding dispatch_request
  dispatch_request-Keeps r u class l =
      Keeps-if _ (Keeps-if _ (output-Keeps dev r u l) (input-Keeps dev r u l))
        (Keeps-if _ (class-Keeps dev.handle_class r u class) (kept l))

  then_continue-Keeps :
      (fuel : ℕ) {o : Option Usb} → Keeps o → Keeps (then_continue chip dev fuel o)
  then_continue-Keeps fuel failed = failed
  then_continue-Keeps fuel (kept l) = continue-Keeps fuel _ l

  -- The interrupt of endpoint 0, in every branch, keeps the place of the buffer within its size, so
  -- that the unsigned difference that counts what remains does not wrap, if the handler of the
  -- class requests does.
  pub ep0_handler-Keeps :
      (fuel : ℕ) (r : Request) (u : Usb)
      → ((f : Request → Usb → Usb) → dev.handle_class ≡ some f → IsBounded (f r u))
      → IsBounded u
      → Keeps (ep0_handler chip dev fuel r u)
  unfolding ep0_handler
  ep0_handler-Keeps fuel r u class l =
      search
        (
          Keeps-if,
          abandon-Keeps fuel,
          continue-Keeps fuel,
          then_continue-Keeps fuel,
          dispatch_request-Keeps r u class,
        )
        depth 10
