-- ===== src/Usb/Packets.antt =====
-- drivers/usbslave/usb_lib.c: what the packets of a message hold, and that the message ends.
use mine_os.Prelude.{
  ℕ, zero, suc, ◌+◌, ◌-◌, ◌*◌, ◌/◌, ◌%◌, ◌<◌, ◌≤◌, ◌==◌, ◌≡◌, ==_iff, ◌∙◌, refl, ap, true, false,
  arith, Bool-cases, inl, inr, Option, some, none, ◌∷◌, ltb, leb, lt→ltb, ltb→lt, le→leb,
  le→ltb_false, ==_false, bit_and,
}
use mine_os.UsbBuffer.{UsbBuf, usb_buf_remain}
use mine_os.Usb.{
  Op, History, Chip, Usb, Ep0State, fifo_loop, usb_buf_tx, usb_buf_ep0_tx, wait_ep0_in_pkt,
  usb_send_message, set_ep0_in_pkt_rdy, set_ep0_inpktrdy_dataend,
}

-- The history after the n bytes of b from place i on are put in the FIFO.
abbrev pub filled : (ℕ → ℕ) → ℕ → ℕ → History → History
filled b i zero h = h
filled b i (suc n) h = filled b (i + 1) n (Op.fifo (b i) ∷ h)

lt→leb_false : (a b : ℕ) → b < a → leb a b ≡ false
lt→leb_false a b h = ground arith

abbrev pub at_place : (ℕ → ℕ) → ℕ → ℕ → UsbBuf
at_place b s i = record { buf = b; size = s; count = i }

fifo_loop_lem :
    (n : ℕ) (b : ℕ → ℕ) (s i j : ℕ) (h : History)
    → i + n ≡ j
    → j ≤ s
    → fifo_loop n (at_place b s i) h ≡ (at_place b s j, filled b i n h)
unfolding fifo_loop
fifo_loop_lem zero b s i j h e l =
    ap {B = UsbBuf × History} (λ k. (at_place b s k, h)) {x = i} {y = j} (omega arith)
fifo_loop_lem (suc n) b s i j h e l =
    rw (lt→ltb i s (omega arith))
      (fifo_loop_lem n b s (i + 1) j (Op.fifo (b i) ∷ h) (omega arith) l)

-- The state with the buffer at place i.
abbrev at_usb : Usb → ℕ → History → Usb
at_usb u i h = record u { ub = at_place u.ub.buf u.ub.size i; log = h }

tx_full :
    (u : Usb) (i : ℕ) (h : History)
    → i + 8 ≤ u.ub.size
    → usb_buf_tx (at_usb u i h) ≡ at_usb u (i + 8) (filled u.ub.buf i 8 h)
unfolding usb_buf_tx usb_buf_remain
tx_full u i h l = rw (
  usb_buf_tx,
  lt→ltb 0 (u.ub.size - i) (omega arith),
  le→leb 8 (u.ub.size - i) (omega arith),
  fifo_loop_lem 8 u.ub.buf u.ub.size i (i + 8) h refl l,
)

tx_short :
    (u : Usb) (i : ℕ) (h : History)
    → 0 < u.ub.size - i
    → u.ub.size < i + 8
    → usb_buf_tx (at_usb u i h) ≡ at_usb u u.ub.size (filled u.ub.buf i (u.ub.size - i) h)
unfolding usb_buf_tx usb_buf_remain
tx_short u i h l k = rw (
  usb_buf_tx,
  lt→ltb 0 (u.ub.size - i) l,
  lt→leb_false 8 (u.ub.size - i) (omega arith),
  fifo_loop_lem (u.ub.size - i) u.ub.buf u.ub.size i u.ub.size h (omega arith) (omega arith),
)

full_packet :
    (u : Usb) (i : ℕ) (h : History)
    → i + 8 ≤ u.ub.size
    → usb_buf_ep0_tx (at_usb u i h) ≡ at_usb u (i + 8) (set_ep0_in_pkt_rdy ∷ filled u.ub.buf i 8 h)
unfolding usb_buf_ep0_tx usb_buf_remain
full_packet u i h l = elim (Bool-cases (ltb 8 (u.ub.size - i))) [
  | inl c ↦ rw (usb_buf_ep0_tx, lt→ltb 0 (u.ub.size - i) (omega arith), c, tx_full u i h l)
  | inr c ↦ rw (
    usb_buf_ep0_tx,
    lt→ltb 0 (u.ub.size - i) (omega arith),
    c,
    (==_iff (u.ub.size - i) 8).1 (ground arith),
    tx_full u i h l,
  )
]

nothing_left :
    (u : Usb) (i j n : ℕ) (h : History)
    → i ≡ j
    → n ≡ 0
    → record (at_usb u i (set_ep0_inpktrdy_dataend ∷ h)) { ep0_state = Ep0State.init }
      ≡ record (at_usb u j (set_ep0_inpktrdy_dataend ∷ filled u.ub.buf i n h)) {
        ep0_state = Ep0State.init;
      }
nothing_left u i j zero h e z =
    ap (λ k. record (at_usb u k (set_ep0_inpktrdy_dataend ∷ h)) { ep0_state = Ep0State.init }) e
nothing_left u i j (suc n) h e z = absurd (omega arith)

short_packet :
    (u : Usb) (i : ℕ) (h : History)
    → i ≤ u.ub.size
    → u.ub.size < i + 8
    → usb_buf_ep0_tx (at_usb u i h)
      ≡ record (at_usb u u.ub.size
          (set_ep0_inpktrdy_dataend ∷ filled u.ub.buf i (u.ub.size - i) h)) {
            ep0_state = Ep0State.init;
          }
unfolding usb_buf_ep0_tx usb_buf_remain
short_packet u i h l k = elim (Bool-cases (ltb 0 (u.ub.size - i))) [
  | inl c ↦ rw (
    usb_buf_ep0_tx,
    c,
    le→ltb_false 8 (u.ub.size - i) (omega arith),
    ==_false (u.ub.size - i) 8 (omega arith),
    tx_short u i h (ltb→lt 0 (u.ub.size - i) c) k,
  )
  | inr c ↦
      rw
        (
          usb_buf_ep0_tx,
          c,
          le→ltb_false 8 (u.ub.size - i) (omega arith),
          ==_false (u.ub.size - i) 8 (omega arith),
        )
        (nothing_left u i u.ub.size (u.ub.size - i) h (ground arith) (ground arith))
]

-- The history of a message of n packets of 8 bytes and a last one of r bytes, from place i on.
abbrev pub message : (ℕ → ℕ) → ℕ → ℕ → ℕ → History → History
message b i zero r h = set_ep0_inpktrdy_dataend ∷ filled b i r (Op.poll ∷ h)
message b i (suc n) r h = message b (i + 8) n r (set_ep0_in_pkt_rdy ∷ filled b i 8 (Op.poll ∷ h))

module _ (chip : Chip) where
  -- One call of usb_send_message after the other, k times: one for each packet that the host takes.
  abbrev pub sends : ℕ → ℕ → Usb → Option Usb
  sends fuel zero u = some u
  sends fuel (suc k) u = elim (usb_send_message chip fuel u) [
    | none ↦ none
    | some u' ↦ sends fuel k u'
  ]

  -- The controller has always sent the packet before.
  abbrev pub IsFree : Type 0
  IsFree = (h : History) → (bit_and (chip.ep0_csr h) 0x02 == 0) ≡ true

  one_send :
      (fuel i : ℕ) (u : Usb) (h : History)
      → IsFree
      → usb_send_message chip (suc fuel) (at_usb u i h)
        ≡ some (usb_buf_ep0_tx (at_usb u i (Op.poll ∷ h)))
  unfolding usb_send_message wait_ep0_in_pkt
  one_send fuel i u h free = rw (usb_send_message, wait_ep0_in_pkt, free h)

  sends_step :
      (fuel k : ℕ) (u u' : Usb)
      → usb_send_message chip fuel u ≡ some u'
      → sends fuel (suc k) u ≡ sends fuel k u'
  sends_step fuel k u u' e = rw (sends, e)

  sends_lem :
      (n fuel i r : ℕ) (u : Usb) (h : History)
      → IsFree
      → i + 8 * n + r ≡ u.ub.size
      → r < 8
      → sends (suc fuel) (suc n) (at_usb u i h)
        ≡ some (record u {
          ub = at_place u.ub.buf u.ub.size u.ub.size;
          ep0_state = Ep0State.init;
          log = message u.ub.buf i n r h;
        })
  sends_lem zero fuel i r u h free l k =
      sends_step (suc fuel) 0 (at_usb u i h) _ (one_send fuel i u h free)
      ∙ ap (λ v. some v) (short_packet u i (Op.poll ∷ h) (omega arith) (omega arith))
      ∙ ap
          (λ m. some (record u {
            ub = at_place u.ub.buf u.ub.size u.ub.size;
            ep0_state = Ep0State.init;
            log = message u.ub.buf i 0 m h;
          }))
          {x = u.ub.size - i} {y = r} (omega arith)
  sends_lem (suc n) fuel i r u h free l k =
      sends_step (suc fuel) (suc n) (at_usb u i h) _ (one_send fuel i u h free)
      ∙ ap (sends (suc fuel) (suc n)) (full_packet u i (Op.poll ∷ h) (omega arith))
      ∙ sends_lem n fuel (i + 8) r u _ free (omega arith) k

  -- While full packets are left, endpoint 0 keeps its state.
  sends_full :
      (k fuel i : ℕ) (u : Usb) (h : History)
      → IsFree
      → i + 8 * k ≤ u.ub.size
      → (h' : History) × (sends (suc fuel) k (at_usb u i h) ≡ some (at_usb u (i + 8 * k) h'))
  sends_full zero fuel i u h free l =
      (h, ap (λ j. some (at_usb u j h)) {x = i} {y = i + 8 * 0} (omega arith))
  sends_full (suc k) fuel i u h free l =
      let (h', e) = sends_full k fuel (i + 8) u _ free (omega arith) in
      (
        h',
        sends_step (suc fuel) k (at_usb u i h) _ (one_send fuel i u h free)
            ∙ ap (sends (suc fuel) k) (full_packet u i (Op.poll ∷ h) (omega arith))
            ∙ e
            ∙ ap (λ j. some (at_usb u j h')) {x = i + 8 + 8 * k} {y = i + 8 * suc k} (omega arith),
      )

  -- A message of any size, from its start, needs exactly size / 8 + 1 calls of usb_send_message
  -- where the controller has always sent the packet before: all packets but the last hold the next
  -- 8 bytes, the last holds the size % 8 bytes that are left, which may be none, and it alone is
  -- marked as the end of the data; after it endpoint 0 is in its initial state, and after each
  -- packet before it in the state that it had at the start.
  pub message_sent :
      (fuel : ℕ) (u : Usb)
      → IsFree
      → u.ub.count ≡ 0
      → (sends (suc fuel) (u.ub.size / 8 + 1) u
          ≡ some (record u {
            ub = at_place u.ub.buf u.ub.size u.ub.size;
            ep0_state = Ep0State.init;
            log = message u.ub.buf 0 (u.ub.size / 8) (u.ub.size % 8) u.log;
          }))
        × ((k : ℕ)
            → k ≤ u.ub.size / 8
            → (v : Usb) × (sends (suc fuel) k u ≡ some v) × (v.ep0_state ≡ u.ep0_state))
  message_sent fuel u free z =
      let start : at_usb u u.ub.count u.log ≡ at_usb u 0 u.log = ap (λ i. at_usb u i u.log) z in
      (
        ap (λ k. sends (suc fuel) k u) {x = u.ub.size / 8 + 1} {y = suc (u.ub.size / 8)}
              (omega arith)
            ∙ ap (sends (suc fuel) (suc (u.ub.size / 8))) start
            ∙ sends_lem (u.ub.size / 8) fuel 0 (u.ub.size % 8) u u.log free (omega arith)
                (omega arith),
        λ k l.
            let (h', e) = sends_full k fuel 0 u u.log free (omega arith) in
            (at_usb u (0 + 8 * k) h', ap (sends (suc fuel) k) start ∙ e, refl),
      )
