-- ===== src/UsbMass/RoundTrip.antt =====
-- drivers/usbslave/mass_storage: the host reads what it has written; the handler of endpoint 3.
use mine_os.Prelude.{
  Bool-cases, inl, inr, ℕ, zero, suc, ◌+◌, ◌-◌, ◌*◌, ◌%◌, ◌^◌, ◌<◌, ◌≤◌, ◌==◌, ◌≡◌, ◌∙◌, refl, ap,
  sym, ◌&&◌, true, false, arith, some, List, ◌∷◌, ltb, leb, if◌then◌else◌, All, le→ltb_false,
  le→leb, lt→ltb,
}
use mine_os.Bits.{test_bit}
use mine_os.Bits.Clear.{or_digits}
use mine_os.Links.{update}
use mine_os.UsbMass.{
  Op, History, Chip, Mass, OutFsm, mass_storage_addr, rx_loop, ep_rx_fifo, ep3_pkt_size,
}
use mine_os.UsbMass.Command.{
  cbw_of, csw_of, logic_address, t_size, parameter, signed_char, sizeof_csw, sizeof_cbw,
  ep3_handler, handle_mass_bulk_out, handle_packet,
}
use mine_os.UsbMass.Packets.{sent, after, after_ext, IsFree}
use mine_os.UsbMass.Arrivals.{
  Packet, stream, total, taken, sent-taken, arrival, arrived, receive, IsCommand,
}
use mine_os.UsbMass.Stored.{stored, write_stored}
use mine_os.UsbMass.Sent.{IsQuiet, read_out, read_sent}

stored_inside :
    (ps : List Packet) (p : ℕ) (ram : ℕ → ℕ) (i : ℕ)
    → i < total ps
    → stored ps p ram (p + i) ≡ stream ps i
stored_inside ps p ram i h =
    rw (le→leb p (p + i) (omega arith), lt→ltb (p + i) (p + total ps) (omega arith))
      (ap (stream ps) {x = p + i - p} {y = i} (omega arith))

-- The command block is for n blocks, and neither byte of the number is negative as a char.
abbrev pub IsCount : (ℕ → ℕ) → ℕ → Type 0
IsCount buf n =
    ((cbw_of buf).cb 7 < 128)
    × ((cbw_of buf).cb 8 < 128)
    × ((cbw_of buf).cb 7 * 2 ^ 8 + (cbw_of buf).cb 8 ≡ n)

t_size_lem : (buf : ℕ → ℕ) (n : ℕ) → IsCount buf n → t_size (cbw_of buf) ≡ n * 512
unfolding t_size parameter signed_char
t_size_lem buf n (high, low, count) =
    let h = (cbw_of buf).cb 7 in
    let l = (cbw_of buf).cb 8 in
    let small : h * 2 ^ 8 % 2 ^ 32 ≡ h * 2 ^ 8 = omega (arith, high) in
    rw (lt→ltb h 128 high, lt→ltb l 128 low, small, or_digits 8 h l (omega (arith, low)))
      (omega (arith, high, low, count))

module _ (chip : Chip) (fuel : ℕ) (behind : ℕ → ℕ) where
  -- A write of whole blocks, in packets that are not empty and inside the 32 bits of the addresses,
  -- and then a read of the same blocks, where both bytes of the number of blocks are below 0x80,
  -- and the controller has always sent the packet before and no stall: both are answered, and the
  -- host gets the bytes that it wrote, in whatever packets it sent them.
  pub read-write :
      (wbuf rbuf : ℕ → ℕ) (n : ℕ) (ps : List Packet) (s : Mass)
      → IsFree chip
      → IsQuiet chip
      → s.mass_out_fsm ≡ OutFsm.cmd
      → IsCommand 0x2a false wbuf
      → IsCommand 0x28 true rbuf
      → (cbw_of wbuf).data_transfer_length ≡ total ps
      → (cbw_of rbuf).data_transfer_length ≡ total ps
      → IsCount rbuf n
      → n * 512 ≡ total ps
      → logic_address (cbw_of rbuf) ≡ logic_address (cbw_of wbuf)
      → All (λ p. 0 < p.size) ps
      → 0 < total ps
      → mass_storage_addr + logic_address (cbw_of wbuf) * 512 + total ps ≤ 2 ^ 32
      → (s₁ s₂ : Mass) × (receive chip
            (suc fuel)
            behind
            (record { buf = wbuf; size = sizeof_cbw } ∷ ps)
            s
          ≡ some s₁)
        × (read_out chip
              (suc fuel)
              behind
              rbuf
              (8 * n)
              (arrived (record { buf = rbuf; size = sizeof_cbw }) s₁)
            ≡ some s₂)
        × (sent s₂.log
            ≡ after
                (csw_of (cbw_of rbuf).tag 0)
                0
                sizeof_csw
                (after (stream ps) 0 (total ps) (sent s₁.log)))
  read-write wbuf rbuf n ps s free quiet idle wc rc wl rl count blocks same pos left fits =
      let (s₁, done, w) = write_stored chip fuel behind wbuf ps s free idle wc wl pos left fits in
      let (s₂, out, bytes, same_ram, idle₂, flg) =
        read_sent chip fuel n behind rbuf (arrived (record { buf = rbuf; size = sizeof_cbw }) s₁)
          free quiet w.idle rc (rl ∙ sym blocks) (t_size_lem rbuf n count)
          (omega (arith, blocks, left)) (omega (arith, blocks, same, fits)) in
      let base = mass_storage_addr + logic_address (cbw_of wbuf) * 512 in
      let there = mass_storage_addr + logic_address (cbw_of rbuf) * 512 in
      (
        s₁,
        s₂,
        done,
        out,
        bytes
            ∙ ap (after (csw_of (cbw_of rbuf).tag 0) 0 sizeof_csw) (
                ap (after (λ i. s₁.ram (there + i)) 0 (n * 512))
                  (sent-taken sizeof_cbw (Op.out_poll ∷ Op.out_poll ∷ s₁.log))
                ∙ ap (λ k. after (λ i. s₁.ram (there + i)) 0 k (sent s₁.log)) blocks
                ∙ after_ext (λ i. s₁.ram (there + i)) (stream ps) 0 (total ps) (sent s₁.log)
                    (λ i p q.
                      ap s₁.ram {x = there + i} {y = base + i} (omega (arith, same))
                      ∙ w.written (base + i)
                      ∙ stored_inside ps base s.ram i (omega arith))),
      )

  rx_loop_log : (n i : ℕ) (old : ℕ → ℕ) (h : History) → (rx_loop chip n i old h).1 ≡ taken n h
  unfolding rx_loop
  rx_loop_log zero i old h = refl
  rx_loop_log (suc n) i old h = rx_loop_log n (i + 1) _ _

  rx_loop_bytes :
      (n i : ℕ) (old : ℕ → ℕ) (h : History) (k : ℕ)
      → (rx_loop chip n i old h).0 k
        ≡ (if leb i k && ltb k (i + n) then chip.out_fifo (taken (k - i) h) else old k)
  unfolding rx_loop
  rx_loop_bytes zero i old h k = ground arith
  rx_loop_bytes (suc n) i old h k = elim (Bool-cases (i == k)) [
    | inl e ↦ ground (
      arith,
      rx_loop_bytes n (i + 1) (update old i (chip.out_fifo h)) (Op.take ∷ h) k,
      ap (λ m. chip.out_fifo (taken m h)) {x = k - i} {y = 0} (ground arith),
    )
    | inr e ↦ elim (Bool-cases (leb i k)) [
      | inl f ↦ ground (
        arith,
        rx_loop_bytes n (i + 1) (update old i (chip.out_fifo h)) (Op.take ∷ h) k,
        ap (λ m. chip.out_fifo (taken m h)) {x = k - i} {y = suc (k - (i + 1))} (ground arith),
      )
      | inr f ↦
          ground (arith, rx_loop_bytes n (i + 1) (update old i (chip.out_fifo h)) (Op.take ∷ h) k)
    ]
  ]

  rx_short :
      (size : ℕ) (old : ℕ → ℕ) (h : History)
      → chip.out_fifo_cnt h ≡ size
      → size ≤ 64
      → ep_rx_fifo chip ep3_pkt_size old h ≡ (size, (rx_loop chip size 0 old h).0, taken size h)
  unfolding ep_rx_fifo
  rx_short size old h e l = rw (e, le→ltb_false 64 size l, rx_loop_log size 0 old h) refl

  rx_long :
      (size : ℕ) (old : ℕ → ℕ) (h : History)
      → chip.out_fifo_cnt h ≡ size
      → 64 < size
      → ep_rx_fifo chip ep3_pkt_size old h ≡ (0, old, h)
  unfolding ep_rx_fifo
  rx_long size old h e l = rw (e, lt→ltb 64 size l) refl

  -- The interrupt of endpoint 3 hands a packet of at most 64 bytes to the switch, with the bytes that
  -- the FIFO gave one after the other; one that is longer counts as empty, and none of it is taken.
  pub ep3_handler_lem :
      (old : ℕ → ℕ) (s : Mass)
      → test_bit (chip.out_csr1 s.log) 6 ≡ false
      → test_bit (chip.out_csr1 (Op.out_poll ∷ s.log)) 0 ≡ true
      → (size : ℕ) → chip.out_fifo_cnt (Op.out_poll ∷ Op.out_poll ∷ s.log) ≡ size
      → (size ≤ 64
          → (buf : ℕ → ℕ) × (ep3_handler chip fuel behind old s
              ≡ handle_packet chip fuel behind buf size
                  (arrived (record { buf = buf; size = size }) s))
            × ((k : ℕ) → k < size → buf k ≡ chip.out_fifo (arrival k s.log)))
        × (64 < size
            → ep3_handler chip fuel behind old s
              ≡ handle_packet chip fuel behind old 0 (arrived (record { buf = old; size = 0 }) s))
  unfolding ep3_handler handle_mass_bulk_out
  ep3_handler_lem old s stall ready size e =
      let h = Op.out_poll ∷ Op.out_poll ∷ s.log in
      (
        λ l. (
          (rx_loop chip size 0 old h).0,
          rw (stall, ready, rx_short size old h e l) refl,
          λ k m. rx_loop_bytes size 0 old h k ∙ ground arith,
        ),
        λ l. rw (stall, ready, rx_long size old h e l) refl,
      )
