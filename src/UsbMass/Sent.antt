-- ===== src/UsbMass/Sent.antt =====
-- drivers/usbslave/mass_storage: what the host gets that reads the disk.
use mine_os.Prelude.{
  inl, inr, Option-cases, subst, ℕ, zero, suc, ◌+◌, ◌-◌, ◌*◌, ◌%◌, ◌^◌, ◌<◌, ◌≤◌, ◌≡◌, ◌≢◌, ◌∙◌,
  refl, ap, sym, true, false, arith, Option, some, none, ◌∷◌, ==_false, ==_iff, le→ltb_false,
}
use mine_os.Bits.{test_bit}
use mine_os.UsbMass.{
  Op, History, Chip, Mass, OutFsm, Source, usb_send_init, usb_read_ramdisk, mass_storage_addr,
  clr_epx_out_pkt_rdy, set_epx_in_pkt_rdy, logged,
}
use mine_os.UsbMass.Command.{
  ep2_handler, handle_packet, handle_read, mass_command, cbw_of, csw_of, logic_address, t_size,
  sizeof_csw, sizeof_cbw,
}
use mine_os.UsbMass.Packets.{
  sent, after, after_add, after_ext, filled, sent-filled, IsFree, at_place, contents, full_packet,
  one_send, answered, handle_mass_bulk_in_lem,
}
use mine_os.UsbMass.Arrivals.{IsCommand, commanded, command_lem}

abbrev disk_buffer : ℕ → ℕ → Mass → Mass
disk_buffer addr size s = record s {
  ub = record {
    source = Source.memory ((mass_storage_addr + addr) % 2 ^ 32);
    size = size;
    count = 0;
  };
}

-- The state when the first packet of a read is sent.
abbrev first_sent : ℕ → ℕ → Mass → Mass
first_sent addr size s =
    at_place (disk_buffer addr size s) 64
      (set_epx_in_pkt_rdy ∷ filled (contents (disk_buffer addr size s)) 0 64 (Op.in_poll ∷ s.log))

module _ (chip : Chip) where
  -- The host has never answered with a stall.
  abbrev pub IsQuiet : Type 0
  IsQuiet = (h : History) → test_bit (chip.in_csr1 h) 5 ≡ false

  module _ (fuel : ℕ) where
    -- k interrupts of endpoint 2, one for each packet that the host has got.
    abbrev pub handlers : ℕ → Mass → Option Mass
    handlers zero s = some s
    handlers (suc k) s = elim (ep2_handler chip fuel s) [ none ↦ none | some t ↦ handlers k t ]

    handlers_step :
        (k : ℕ) (s t : Mass) → ep2_handler chip fuel s ≡ some t → handlers (suc k) s ≡ handlers k t
    handlers_step k s t e = rw (handlers, e)

    handlers_last :
        (k : ℕ) (s t u : Mass)
        → handlers k s ≡ some t
        → ep2_handler chip fuel t ≡ some u
        → handlers (suc k) s ≡ some u
    handlers_last zero s t u e f =
        let same : t ≡ s = cc in
        handlers_step 0 s u (subst (λ x. ep2_handler chip fuel x ≡ some u) same f)
    handlers_last (suc k) s t u e f = elim (Option-cases (ep2_handler chip fuel s)) [
      | inl g ↦ let stuck : handlers (suc k) s ≡ none = rw (handlers, g) refl in cc
      | inr (r, g) ↦
          handlers_step (suc k) s r g ∙ handlers_last k r t u (sym (handlers_step k s r g) ∙ e) f
    ]

  next_packet :
      (fuel : ℕ) (s : Mass) (i : ℕ) (h : History)
      → IsFree chip
      → IsQuiet
      → i + 64 ≤ s.ub.size
      → ep2_handler chip (suc fuel) (at_place s i h)
        ≡ some (
            at_place s
              (i + 64)
              (set_epx_in_pkt_rdy ∷ filled (contents s) i 64 (Op.in_poll ∷ Op.in_poll ∷ h)))
  unfolding ep2_handler
  next_packet fuel s i h free quiet l = rw (
    ep2_handler,
    quiet h,
    ==_false (s.ub.size - i) 0 (omega arith),
    one_send chip fuel (at_place s i (Op.in_poll ∷ h)) free,
    full_packet s i (Op.in_poll ∷ Op.in_poll ∷ h) l,
  )

  last_answer :
      (fuel : ℕ) (s : Mass)
      → IsFree chip
      → IsQuiet
      → s.ub.size - s.ub.count ≡ 0
      → s.flg_req ≡ true
      → ep2_handler chip (suc fuel) s ≡ some (answered (logged Op.in_poll s))
  unfolding ep2_handler
  last_answer fuel s free quiet e flg = rw (
    ep2_handler,
    quiet s.log,
    (==_iff (s.ub.size - s.ub.count) 0).1 e,
    handle_mass_bulk_in_lem chip fuel (logged Op.in_poll s) free flg,
  )

  packets_sent :
      (k fuel : ℕ) (s : Mass) (i : ℕ) (h : History)
      → IsFree chip
      → IsQuiet
      → i + 64 * k ≤ s.ub.size
      → (h' : History) × (handlers (suc fuel) k (at_place s i h)
          ≡ some (at_place s (i + 64 * k) h'))
        × (sent h' ≡ after (contents s) i (64 * k) (sent h))
  packets_sent zero fuel s i h free quiet l =
      (h, ap (λ j. some (at_place s j h)) {x = i} {y = i + 0} (omega arith), refl)
  packets_sent (suc k) fuel s i h free quiet l =
      let h₁ = set_epx_in_pkt_rdy ∷ filled (contents s) i 64 (Op.in_poll ∷ Op.in_poll ∷ h) in
      let (h', e, b) = packets_sent k fuel s (i + 64) h₁ free quiet (omega arith) in
      (
        h',
        handlers_step (suc fuel) k (at_place s i h) _
              (next_packet fuel s i h free quiet (omega arith))
            ∙ e
            ∙ ap (λ j. some (at_place s j h')) {x = i + 64 + 64 * k} {y = i + 64 * suc k}
                (omega arith),
        b
            ∙ ap (after (contents s) (i + 64) (64 * k))
                (sent-filled (contents s) i 64 (Op.in_poll ∷ Op.in_poll ∷ h))
            ∙ sym (after_add (contents s) i 64 (64 * k) (sent h))
            ∙ ap (λ n. after (contents s) i n (sent h)) {x = 64 + 64 * k} {y = 64 * suc k}
                (omega arith),
      )

  read_ramdisk_lem :
      (fuel addr size : ℕ) (s : Mass)
      → IsFree chip
      → (mass_storage_addr + addr) % 2 ^ 32 ≢ 0
      → 64 ≤ size
      → usb_read_ramdisk chip (suc fuel) addr size s ≡ some (first_sent addr size s)
  unfolding usb_read_ramdisk usb_send_init
  read_ramdisk_lem fuel addr size s free ne l =
      let begun : usb_send_init (Source.memory ((mass_storage_addr + addr) % 2 ^ 32)) size s
          ≡ some (disk_buffer addr size s) =
        rw (==_false ((mass_storage_addr + addr) % 2 ^ 32) 0 ne, ==_false size 0 (omega arith))
          refl in
      rw (
        usb_read_ramdisk,
        begun,
        one_send chip fuel (disk_buffer addr size s) free,
        full_packet (disk_buffer addr size s) 0 (Op.in_poll ∷ s.log) l,
      )

  dispatch_read :
      (fuel n : ℕ) (behind buf : ℕ → ℕ) (s : Mass)
      → IsFree chip
      → IsCommand 0x28 true buf
      → (cbw_of buf).data_transfer_length ≡ n * 512
      → t_size (cbw_of buf) ≡ n * 512
      → 0 < n
      → (mass_storage_addr + logic_address (cbw_of buf) * 512 % 2 ^ 32) % 2 ^ 32 ≢ 0
      → mass_command chip (suc fuel) behind (cbw_of buf) s
        ≡ some (first_sent (logic_address (cbw_of buf) * 512 % 2 ^ 32) (n * 512) s)
  unfolding mass_command handle_read
  dispatch_read fuel n behind buf s free c e blocks l ne = rw (
    mass_command,
    c.code,
    c.direction,
    ==_false (cbw_of buf).data_transfer_length 0 (omega (arith, e)),
    le→ltb_false (t_size (cbw_of buf)) (cbw_of buf).data_transfer_length (omega (arith, e, blocks)),
    le→ltb_false (cbw_of buf).data_transfer_length (t_size (cbw_of buf)) (omega (arith, e, blocks)),
    blocks,
    read_ramdisk_lem fuel (logic_address (cbw_of buf) * 512 % 2 ^ 32) (n * 512) s free ne
        (omega arith),
  )

  -- The packet with the command, and then k interrupts of endpoint 2.
  abbrev pub read_out : ℕ → (behind buf : ℕ → ℕ) → ℕ → Mass → Option Mass
  read_out fuel behind buf k s = elim (handle_packet chip fuel behind buf sizeof_cbw s) [
    | none ↦ none
    | some t ↦ handlers fuel k t
  ]

  read_out_step :
      (fuel : ℕ) (behind buf : ℕ → ℕ) (k : ℕ) (s t : Mass)
      → handle_packet chip fuel behind buf sizeof_cbw s ≡ some t
      → read_out fuel behind buf k s ≡ handlers fuel k t
  read_out_step fuel behind buf k s t e = rw (read_out, e)

  -- A read of the host, of n blocks by t_size and by the bytes it announces: with the command and
  -- the next eight interrupts for each block, where the controller has always sent the packet
  -- before and no stall, the host gets the bytes from the block on, and then the status 0 with the
  -- tag of the command; the memory is as it was, and the next command can come.
  pub read_sent :
      (fuel n : ℕ) (behind buf : ℕ → ℕ) (s : Mass)
      → IsFree chip
      → IsQuiet
      → s.mass_out_fsm ≡ OutFsm.cmd
      → IsCommand 0x28 true buf
      → (cbw_of buf).data_transfer_length ≡ n * 512
      → t_size (cbw_of buf) ≡ n * 512
      → 0 < n
      → mass_storage_addr + logic_address (cbw_of buf) * 512 + n * 512 ≤ 2 ^ 32
      → (s' : Mass) × (read_out (suc fuel) behind buf (8 * n) s ≡ some s')
        × (sent s'.log
            ≡ after (csw_of (cbw_of buf).tag 0) 0 sizeof_csw (
                after
                  (λ i. s.ram (mass_storage_addr + logic_address (cbw_of buf) * 512 + i))
                  0
                  (n * 512)
                  (sent s.log)))
        × (s'.ram ≡ s.ram)
        × (s'.mass_out_fsm ≡ OutFsm.cmd)
        × (s'.flg_req ≡ false)
  read_sent fuel n behind buf s free quiet idle c e blocks l fits =
      let a = logic_address (cbw_of buf) * 512 in
      let t = first_sent (a % 2 ^ 32) (n * 512) (commanded buf s) in
      let k = 8 * n - 1 in
      let (h', go, b) =
        packets_sent k fuel t 64 (clr_epx_out_pkt_rdy ∷ t.log) free quiet (omega arith) in
      let u = at_place t (64 + 64 * k) h' in
      (
        answered (logged Op.in_poll u),
        read_out_step (suc fuel) behind buf (8 * n) s _ (
              command_lem chip fuel behind buf 0x28 true s (some t) idle c (
                dispatch_read fuel n behind buf (commanded buf s) free c e blocks l
                  (omega (arith, l))))
            ∙ ap (λ m. handlers (suc fuel) m (logged clr_epx_out_pkt_rdy t)) {x = 8 * n} {y = suc k}
                (omega arith)
            ∙ handlers_last (suc fuel) k (logged clr_epx_out_pkt_rdy t) u _ go
                (last_answer fuel u free quiet (omega arith) refl),
        sent-filled (csw_of (cbw_of buf).tag 0) 0 sizeof_csw (Op.in_poll ∷ Op.in_poll ∷ h')
            ∙ ap (after (csw_of (cbw_of buf).tag 0) 0 sizeof_csw) (
                b
                ∙ ap (after (contents t) 64 (64 * k))
                    (sent-filled (contents t) 0 64 (Op.in_poll ∷ s.log))
                ∙ sym (after_add (contents t) 0 64 (64 * k) (sent s.log))
                ∙ ap (λ m. after (contents t) 0 m (sent s.log)) {x = 64 + 64 * k} {y = n * 512}
                    (omega arith)
                ∙ after_ext (contents t) (λ i. s.ram (mass_storage_addr + a + i)) 0 (n * 512)
                    (sent s.log) (λ i p q. ap s.ram (omega arith))),
        refl,
        idle,
        refl,
      )
