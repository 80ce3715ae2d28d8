-- ===== src/UsbMass/Packets.antt =====
-- drivers/usbslave/usb_lib.c: the packets of endpoint 2, and the status of
-- drivers/usbslave/mass_storage/usb_mass.c in one of them.
use mine_os.Prelude.{
  ℕ, zero, suc, ◌+◌, ◌-◌, ◌<◌, ◌≤◌, ◌≡◌, ◌∙◌, refl, ap, true, false, arith, some, List, [], ◌∷◌,
  leb, lt→ltb, le→leb,
}
use mine_os.Bits.{test_bit}
use mine_os.UsbMass.{
  Op, History, Chip, Source, Mass, source_byte, epx_fifo_loop, usb_buf_epx_tx, usb_send_init,
  wait_epx_in_pkt, usb_send_message_ep2, set_epx_in_pkt_rdy,
}
use mine_os.UsbMass.Command.{send_reply, handle_mass_bulk_in, csw_of, sizeof_csw, no_cbw}

-- The history after the n bytes of b from place i on are put in the FIFO.
abbrev pub filled : (ℕ → ℕ) → ℕ → ℕ → History → History
filled b i zero h = h
filled b i (suc n) h = filled b (i + 1) n (Op.fifo (b i) ∷ h)

-- The bytes that the host has got from endpoint 2, the latest first.
abbrev pub sent : History → List ℕ
sent [] = []
sent (Op.fifo x ∷ h) = x ∷ sent h
sent (Op.take ∷ h) = sent h
sent (Op.in_poll ∷ h) = sent h
sent (Op.out_poll ∷ h) = sent h
sent (Op.in_csr clear set ∷ h) = sent h
sent (Op.out_csr clear set ∷ h) = sent h

-- The n bytes of b from place i on, after those of xs, the latest first.
abbrev pub after : (ℕ → ℕ) → ℕ → ℕ → List ℕ → List ℕ
after b i zero xs = xs
after b i (suc n) xs = after b (i + 1) n (b i ∷ xs)

pub sent-filled : (b : ℕ → ℕ) (i n : ℕ) (h : History) → sent (filled b i n h) ≡ after b i n (sent h)
sent-filled b i zero h = refl
sent-filled b i (suc n) h = sent-filled b (i + 1) n (Op.fifo (b i) ∷ h)

pub after_add :
    (b : ℕ → ℕ) (i n m : ℕ) (xs : List ℕ)
    → after b i (n + m) xs ≡ after b (i + n) m (after b i n xs)
after_add b i zero m xs =
    ap (λ k. after b i k xs) {x = 0 + m} {y = m} (omega arith)
    ∙ ap (λ k. after b k m xs) {x = i} {y = i + 0} (omega arith)
after_add b i (suc n) m xs =
    ap (λ k. after b i k xs) {x = suc n + m} {y = suc (n + m)} (omega arith)
    ∙ after_add b (i + 1) n m (b i ∷ xs)
    ∙ ap (λ k. after b k m (after b i (suc n) xs)) {x = i + 1 + n} {y = i + suc n} (omega arith)

pub after_ext :
    (b c : ℕ → ℕ) (i n : ℕ) (xs : List ℕ)
    → ((k : ℕ) → i ≤ k → k < i + n → b k ≡ c k)
    → after b i n xs ≡ after c i n xs
after_ext b c i zero xs e = refl
after_ext b c i (suc n) xs e =
    ap (λ v. after b (i + 1) n (v ∷ xs)) (e i (omega arith) (omega arith))
    ∙ after_ext b c (i + 1) n (c i ∷ xs) (λ k l h. e k (omega arith) (omega arith))

-- The state with the buffer at place i.
abbrev pub at_place : Mass → ℕ → History → Mass
at_place s i h = record s { ub = record (s.ub) { count = i }; log = h }

abbrev pub contents : Mass → ℕ → ℕ
contents s = source_byte s.ram s.ub.source

fifo_loop_lem :
    (n : ℕ) (s : Mass) (i j : ℕ) (h : History)
    → i + n ≡ j
    → j ≤ s.ub.size
    → epx_fifo_loop n (at_place s i h) ≡ at_place s j (filled (contents s) i n h)
unfolding epx_fifo_loop
fifo_loop_lem zero s i j h e l = ap (λ k. at_place s k h) {x = i} {y = j} (omega arith)
fifo_loop_lem (suc n) s i j h e l =
    rw (lt→ltb i s.ub.size (omega arith))
      (fifo_loop_lem n s (i + 1) j (Op.fifo (contents s i) ∷ h) (omega arith) l)

pub full_packet :
    (s : Mass) (i : ℕ) (h : History)
    → i + 64 ≤ s.ub.size
    → usb_buf_epx_tx (at_place s i h)
      ≡ at_place s (i + 64) (set_epx_in_pkt_rdy ∷ filled (contents s) i 64 h)
unfolding usb_buf_epx_tx
full_packet s i h l = rw (
  usb_buf_epx_tx,
  le→leb 64 (s.ub.size - i) (omega arith),
  lt→ltb 0 (s.ub.size - i) (omega arith),
  fifo_loop_lem 64 s i (i + 64) h refl l,
)

lt→leb_false : (a b : ℕ) → b < a → leb a b ≡ false
lt→leb_false a b h = ground arith

pub short_packet :
    (s : Mass) (i : ℕ) (h : History)
    → 0 < s.ub.size - i
    → s.ub.size < i + 64
    → usb_buf_epx_tx (at_place s i h)
      ≡ at_place s s.ub.size (set_epx_in_pkt_rdy ∷ filled (contents s) i (s.ub.size - i) h)
unfolding usb_buf_epx_tx
short_packet s i h l k = rw (
  usb_buf_epx_tx,
  lt→leb_false 64 (s.ub.size - i) (omega arith),
  lt→ltb 0 (s.ub.size - i) l,
  fifo_loop_lem (s.ub.size - i) s i s.ub.size h (omega arith) (omega arith),
)

-- The state when the status is sent.
abbrev pub answered : Mass → Mass
answered s =
    let csw = csw_of s.tcbw.tag s.exec_status in
    record s {
      ub = record { source = Source.array csw; size = sizeof_csw; count = sizeof_csw };
      log = set_epx_in_pkt_rdy ∷ filled csw 0 sizeof_csw (Op.in_poll ∷ s.log);
      flg_req = false;
      exec_status = 0;
      tcbw = no_cbw;
    }

module _ (chip : Chip) where
  -- The controller has always sent the packet before.
  abbrev pub IsFree : Type 0
  IsFree = (h : History) → test_bit (chip.in_csr1 h) 0 ≡ false

  pub one_send :
      (fuel : ℕ) (s : Mass)
      → IsFree
      → usb_send_message_ep2 chip (suc fuel) s
        ≡ some (usb_buf_epx_tx (record s { log = Op.in_poll ∷ s.log }))
  unfolding usb_send_message_ep2 wait_epx_in_pkt
  one_send fuel s free = rw (usb_send_message_ep2, wait_epx_in_pkt, free s.log)

  pub handle_mass_bulk_in_lem :
      (fuel : ℕ) (s : Mass)
      → IsFree
      → s.flg_req ≡ true
      → handle_mass_bulk_in chip (suc fuel) s ≡ some (answered s)
  unfolding handle_mass_bulk_in send_reply usb_send_init
  handle_mass_bulk_in_lem fuel s free e =
      let csw = csw_of s.tcbw.tag s.exec_status in
      let s₁ = record s {
        ub = record { source = Source.array csw; size = sizeof_csw; count = 0 };
      } in
      rw
        (
          handle_mass_bulk_in,
          one_send fuel s₁ free,
          short_packet s₁ 0 (Op.in_poll ∷ s.log) (omega arith) (omega arith),
          e,
        )
        refl
