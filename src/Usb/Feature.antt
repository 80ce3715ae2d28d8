-- ===== src/Usb/Feature.antt =====
-- drivers/usbslave/usb_isr.c: the halt of an endpoint, set by one request and reported by another.
use mine_os.Prelude.{
  ℕ, ◌/◌, ◌%◌, ◌^◌, ◌==◌, ◌≡◌, ◌⊎◌, refl, sym, subst, true, arith, if◌then◌else◌, inl, inr, some,
  bit_and,
}
use mine_os.Links.{update}
use mine_os.UsbBuffer.{usb_buf_init}
use mine_os.Usb.{Usb, Ep0State, logged, clr_ep0_outpktrdy_dataend, clr_ep0_out_pkt_rdy}
use mine_os.Usb.Control.{
  Request, Device, low_byte, number, buf_init, is_some, get_endpoint_status, get_status,
  handle_standard_input, set_endpoint, set_feature, standard_output, handle_standard_output,
}

-- The device has descriptors of its endpoints 1 to 3.
pub record HasEndpoints (dev : Device) : Type 0 where
  pub first : is_some (dev.endpoint_desc 0) ≡ true
  pub second : is_some (dev.endpoint_desc 1) ≡ true
  pub third : is_some (dev.endpoint_desc 2) ≡ true

-- SET_FEATURE of the halt of an endpoint, and GET_STATUS of an endpoint.
pub record IsHalt (r : Request) : Type 0 where
  pub request : r.request ≡ 3
  pub recipient : bit_and r.request_type 0x1f ≡ 2
  pub feature : bit_and r.value 0xff ≡ 0

pub record IsQuery (r : Request) : Type 0 where
  pub request : r.request ≡ 0
  pub recipient : bit_and r.request_type 0x1f ≡ 2

-- What GET_STATUS answers for the status v of an endpoint.
abbrev pub answered : ℕ → Usb → Usb
answered v u = record u {
  ub = record { buf = (number 2 v).buf; size = 2; count = 0 };
  ep0_state = Ep0State.transmit;
}

-- The place in g_status.endpoint of an endpoint's address.
abbrev pub place : ℕ → ℕ
place w = if w == 0 then 0 else (if w == 0x81 then 1 else (if w == 0x03 then 3 else 2))

-- The addresses of the endpoints: 0, in 1, in 2 and out 3.
abbrev pub IsEndpoint : ℕ → Type 0
IsEndpoint w = (w ≡ 0) ⊎ ((w ≡ 0x81) ⊎ ((w ≡ 0x82) ⊎ (w ≡ 0x03)))

by_endpoint : (P : ℕ → Type 0) → P 0 → P 0x81 → P 0x82 → P 0x03 → (w : ℕ) → IsEndpoint w → P w
by_endpoint P a b c d w (inl e) = subst P (sym e) a
by_endpoint P a b c d w (inr (inl e)) = subst P (sym e) b
by_endpoint P a b c d w (inr (inr (inl e))) = subst P (sym e) c
by_endpoint P a b c d w (inr (inr (inr e))) = subst P (sym e) d

reported :
    (w : ℕ) (f : ℕ → ℕ)
    → IsEndpoint w
    → (if w == 0x82 then f else update f (place w) 1) (place w) / 1 % 2 ^ 8
      ≡ (if w == 0x82 then f 2 % 2 ^ 8 else 1)
reported w f =
    by_endpoint
      (λ w.
        (if w == 0x82 then f else update f (place w) 1) (place w) / 1 % 2 ^ 8
        ≡ (if w == 0x82 then f 2 % 2 ^ 8 else 1))
      refl refl (omega arith) refl w

module _ (dev : Device) (has : HasEndpoints dev) where
  -- The status after a write to the endpoint w: the address 0x82 is not one that is known there.
  abbrev pub halted : ℕ → ℕ → Usb → Usb
  halted w v u = record u {
    status = record u.status {
      endpoint = (if w == 0x82 then u.status.endpoint else update u.status.endpoint (place w) v);
    };
  }

  set_endpoint_lem :
      (w v : ℕ) (u : Usb) → IsEndpoint w → set_endpoint dev w v u ≡ some (halted w v u)
  unfolding set_endpoint
  set_endpoint_lem w v u =
      by_endpoint (λ w. set_endpoint dev w v u ≡ some (halted w v u)) refl (rw has.first) refl
        (rw has.third) w

  get_endpoint_lem :
      (w : ℕ) (u : Usb)
      → IsEndpoint w
      → get_endpoint_status dev w u ≡ some (answered (u.status.endpoint (place w)) u)
  unfolding get_endpoint_status buf_init usb_buf_init
  get_endpoint_lem w u =
      by_endpoint
        (λ w. get_endpoint_status dev w u ≡ some (answered (u.status.endpoint (place w)) u)) refl
        (rw has.first) (rw has.second) (rw has.third) w

  set_lem :
      (r : Request) (u : Usb)
      → IsHalt r
      → IsEndpoint (low_byte r.index)
      → handle_standard_output dev r u
        ≡ some (record (logged clr_ep0_outpktrdy_dataend (halted (low_byte r.index) 1 u)) {
          ep0_state = Ep0State.init;
        })
  unfolding handle_standard_output standard_output set_feature
  set_lem r u q k =
      rw (q.request, q.recipient, q.feature, set_endpoint_lem (low_byte r.index) 1 u k)

  get_lem :
      (r : Request) (u : Usb)
      → IsQuery r
      → IsEndpoint (low_byte r.index)
      → handle_standard_input dev r u
        ≡ some
            (logged clr_ep0_out_pkt_rdy (answered (u.status.endpoint (place (low_byte r.index))) u))
  unfolding handle_standard_input get_status
  get_lem r u q k = rw (q.request, q.recipient, get_endpoint_lem (low_byte r.index) u k)

  -- SET_FEATURE of the halt of an endpoint, and then GET_STATUS of the same endpoint, of a device
  -- with descriptors of its three endpoints: the answer has two bytes, of which the first is 1, but
  -- for the endpoint 0x82, whose halt is ignored: there it is the byte that was there before.
  pub halt_reported :
      (set get : Request) (u : Usb)
      → IsHalt set
      → IsQuery get
      → IsEndpoint (low_byte set.index)
      → get.index ≡ set.index
      → (u₁ : Usb) × (u₂ : Usb) × (handle_standard_output dev set u ≡ some u₁)
        × (handle_standard_input dev get u₁ ≡ some u₂)
        × (u₂.ub.size ≡ 2)
        × (u₂.ub.buf 0 ≡ (if low_byte set.index == 0x82 then u.status.endpoint 2 % 2 ^ 8 else 1))
  halt_reported set get u hs hg k e =
      let u₁ : Usb = record (logged clr_ep0_outpktrdy_dataend (halted (low_byte set.index) 1 u)) {
        ep0_state = Ep0State.init;
      } in
      (
        u₁,
        logged clr_ep0_out_pkt_rdy (answered (u₁.status.endpoint (place (low_byte get.index))) u₁),
        set_lem set u hs k,
        get_lem get u₁ hg (subst (λ i. IsEndpoint (low_byte i)) (sym e) k),
        refl,
        rw e (reported (low_byte set.index) u.status.endpoint k),
      )
