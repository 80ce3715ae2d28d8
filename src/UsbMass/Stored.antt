-- ===== src/UsbMass/Stored.antt =====
-- drivers/usbslave/mass_storage: what a write of the host leaves in the memory, and its status.
use mine_os.Prelude.{
  ℕ, zero, suc, ◌+◌, ◌-◌, ◌*◌, ◌%◌, ◌^◌, ◌<◌, ◌≤◌, ◌==◌, ◌≡◌, ◌∙◌, refl, ap, true, false, ◌&&◌,
  arith, some, List, [], ◌∷◌, ltb, leb, if◌then◌else◌, All, ==_false, Bool-cases, inl, inr,
}
use mine_os.Links.{update}
use mine_os.UsbMass.{
  Op, History, Chip, Mass, OutFsm, copy_bytes, usb_write_ramdisk, mass_storage_addr,
  clr_epx_out_pkt_rdy, logged,
}
use mine_os.UsbMass.Command.{
  handle_packet, handle_data, handle_write, mass_command, cbw_of, csw_of, logic_address, sizeof_cbw,
  sizeof_csw,
}
use mine_os.UsbMass.Packets.{sent, after, sent-filled, IsFree, answered, handle_mass_bulk_in_lem}
use mine_os.UsbMass.Arrivals.{
  Packet, stream, total, arrival, sent-taken, receive, receive_step, IsCommand, commanded,
  command_lem,
}

pub copy_bytes_lem :
    (n p i : ℕ) (buf ram : ℕ → ℕ) (x : ℕ)
    → p + i + n ≤ 2 ^ 32
    → copy_bytes n p i buf ram x
      ≡ (if leb (p + i) x && ltb x (p + i + n) then buf (x - p) else ram x)
unfolding copy_bytes
copy_bytes_lem zero p i buf ram x h = ground arith
copy_bytes_lem (suc n) p i buf ram x h = elim (Bool-cases (p + i == x)) [
  | inl e ↦
      let k : x - p ≡ i = ground arith in
      ground
        (arith, copy_bytes_lem n p (i + 1) buf (update ram ((p + i) % 2 ^ 32) (buf i)) x, ap buf k)
  | inr e ↦ ground (arith, copy_bytes_lem n p (i + 1) buf (update ram ((p + i) % 2 ^ 32) (buf i)) x)
]

-- The state while the bytes of a write come.
abbrev receiving : Mass → (left recvd addr : ℕ) → (ℕ → ℕ) → History → Mass
receiving s left recvd addr ram h = record s {
  write_req = record { spread_size = left; recvd_size = recvd; block_addr = addr };
  mass_out_fsm = OutFsm.transfer;
  ram = ram;
  log = h;
}

abbrev put : Packet → ℕ → (ℕ → ℕ) → ℕ → ℕ
put p place ram = copy_bytes p.size ((mass_storage_addr + place % 2 ^ 32) % 2 ^ 32) 0 p.buf ram

-- The state after the last packet.
abbrev finished : Mass → Mass
finished s = record (answered s) {
  mass_out_fsm = OutFsm.cmd;
  write_req = record { spread_size = 0; recvd_size = 0; block_addr = 0 };
}

module _ (chip : Chip) (fuel : ℕ) (behind : ℕ → ℕ) where
  data_case :
      (p : Packet) (s : Mass) (l r a : ℕ) (ram : ℕ → ℕ) (h : History)
      → p.size < l
      → l < 2 ^ 32
      → r + p.size < 2 ^ 32
      → handle_data chip fuel p.buf p.size (receiving s l r a ram h)
        ≡ some (receiving s (l - p.size) (r + p.size) a (put p (a + r) ram) h)
  unfolding handle_data usb_write_ramdisk
  data_case p s l r a ram h k m n =
      let e : (l + 2 ^ 32 - p.size) % 2 ^ 32 ≡ l - p.size = omega arith in
      let f : (r + p.size) % 2 ^ 32 ≡ r + p.size = omega arith in
      rw (e, f, ==_false (l - p.size) 0 (omega arith)) refl

  data_packet :
      (p : Packet) (s t : Mass) (l r a : ℕ) (ram : ℕ → ℕ) (h : History)
      → handle_data chip fuel p.buf p.size (receiving s l r a ram h) ≡ some t
      → handle_packet chip fuel behind p.buf p.size (receiving s l r a ram h)
        ≡ some (logged clr_epx_out_pkt_rdy t)
  unfolding handle_packet
  data_packet p s t l r a ram h e = rw (handle_packet, e) refl

-- What the writes of a list of packets from the address p on leave in the memory.
abbrev pub stored : List Packet → ℕ → (ℕ → ℕ) → ℕ → ℕ
stored ps p ram x = if leb p x && ltb x (p + total ps) then stream ps (x - p) else ram x

put_lem :
    (p : Packet) (a r : ℕ) (ram : ℕ → ℕ) (x : ℕ)
    → 0 < p.size
    → mass_storage_addr + (a + r) + p.size ≤ 2 ^ 32
    → put p (a + r) ram x ≡ stored (p ∷ []) (mass_storage_addr + (a + r)) ram x
put_lem p a r ram x l h =
    let base = mass_storage_addr + (a + r) in
    let at : (mass_storage_addr + (a + r) % 2 ^ 32) % 2 ^ 32 ≡ base = omega arith in
    ap (λ k. copy_bytes p.size k 0 p.buf ram x) at
    ∙ copy_bytes_lem p.size base 0 p.buf ram x (omega arith)
    ∙ ground arith

stored_cons :
    (p : Packet) (q : List Packet) (a r : ℕ) (ram : ℕ → ℕ) (x : ℕ)
    → 0 < p.size
    → mass_storage_addr + (a + r) + (p.size + total q) ≤ 2 ^ 32
    → stored q (mass_storage_addr + (a + (r + p.size))) (put p (a + r) ram) x
      ≡ stored (p ∷ q) (mass_storage_addr + (a + r)) ram x
stored_cons p q a r ram x l h =
    let base = mass_storage_addr + (a + r) in
    let later = mass_storage_addr + (a + (r + p.size)) in
    let k : x - later ≡ x - base - p.size = omega arith in
    ground (arith, put_lem p a r ram x l (omega arith), ap (stream q) k)

-- What the end of a write leaves.
pub record Written (s : Mass) (h : History) (disk : ℕ → ℕ) (s' : Mass) : Type 0 where
  pub written : (x : ℕ) → s'.ram x ≡ disk x
  pub idle : s'.mass_out_fsm ≡ OutFsm.cmd
  pub answered : s'.flg_req ≡ false
  pub status : sent s'.log ≡ after (csw_of s.tcbw.tag s.exec_status) 0 sizeof_csw (sent h)

module _ (chip : Chip) (fuel : ℕ) (behind : ℕ → ℕ) where
  last_case :
      (p : Packet) (s : Mass) (l r a : ℕ) (ram : ℕ → ℕ) (h : History)
      → IsFree chip
      → s.flg_req ≡ true
      → p.size ≡ l
      → l < 2 ^ 32
      → handle_data chip (suc fuel) p.buf p.size (receiving s l r a ram h)
        ≡ some (finished (receiving s 0 r a (put p (a + r) ram) h))
  unfolding handle_data usb_write_ramdisk
  last_case p s l r a ram h free flg k m =
      let e : (l + 2 ^ 32 - p.size) % 2 ^ 32 ≡ 0 = omega arith in
      rw (e, handle_mass_bulk_in_lem chip fuel (receiving s 0 r a (put p (a + r) ram) h) free flg)
        refl

  transfer_lem :
      (ps : List Packet) (s : Mass) (l r a : ℕ) (ram : ℕ → ℕ) (h : History)
      → IsFree chip
      → s.flg_req ≡ true
      → All (λ p. 0 < p.size) ps
      → 0 < l
      → total ps ≡ l
      → mass_storage_addr + (a + r) + l ≤ 2 ^ 32
      → (s' : Mass) × (receive chip (suc fuel) behind ps (receiving s l r a ram h) ≡ some s')
        × Written s h (stored ps (mass_storage_addr + (a + r)) ram) s'
  transfer_lem [] s l r a ram h free flg pos left all fits = absurd (omega arith)
  transfer_lem (p ∷ []) s l r a ram h free flg pos left all fits =
      let h₁ = arrival p.size h in
      let last = receiving s 0 r a (put p (a + r) ram) h₁ in
      let csw = csw_of s.tcbw.tag s.exec_status in
      (
        logged clr_epx_out_pkt_rdy (finished last),
        receive_step chip (suc fuel) behind p [] (receiving s l r a ram h) _ (
            data_packet chip (suc fuel) behind p s (finished last) l r a ram h₁
              (last_case p s l r a ram h₁ free flg (omega arith) (omega arith))),
        record {
          written = λ x. put_lem p a r ram x pos.0 (omega arith);
          idle = refl;
          answered = refl;
          status =
              sent-filled csw 0 sizeof_csw (Op.in_poll ∷ h₁)
              ∙ ap (after csw 0 sizeof_csw) (sent-taken p.size (Op.out_poll ∷ Op.out_poll ∷ h));
        },
      )
  transfer_lem (p ∷ q ∷ ps) s l r a ram h free flg pos left all fits =
      let ram' = put p (a + r) ram in
      let h₁ = arrival p.size h in
      let next = receiving s (l - p.size) (r + p.size) a ram' h₁ in
      let (s', e, w) =
        transfer_lem (q ∷ ps) s (l - p.size) (r + p.size) a ram' (clr_epx_out_pkt_rdy ∷ h₁) free flg
          pos.1 (omega (arith, pos.1)) (omega arith) (omega arith) in
      (
        s',
        receive_step chip (suc fuel) behind p (q ∷ ps) (receiving s l r a ram h) _ (
              data_packet chip (suc fuel) behind p s next l r a ram h₁ (
                data_case chip (suc fuel) behind p s l r a ram h₁ (omega (arith, pos.1))
                  (omega arith) (omega arith)))
            ∙ e,
        record {
          written = λ x. w.written x ∙ stored_cons p (q ∷ ps) a r ram x pos.0 (omega arith);
          idle = w.idle;
          answered = w.answered;
          status =
              w.status
              ∙ ap (after (csw_of s.tcbw.tag s.exec_status) 0 sizeof_csw)
                  (sent-taken p.size (Op.out_poll ∷ Op.out_poll ∷ h));
        },
      )

  dispatch_write :
      (buf : ℕ → ℕ) (s : Mass)
      → IsCommand 0x2a false buf
      → mass_command chip (suc fuel) behind (cbw_of buf) s
        ≡ some (handle_write chip (suc fuel) (cbw_of buf) s)
  unfolding mass_command
  dispatch_write buf s c = rw (mass_command, c.code, c.direction) refl

  -- A write of the host, where the controller has always sent the packet before: the packets that
  -- follow the command, none of them empty, are stored from the block on, whatever their sizes, and
  -- no other byte of the memory changes; then the status 0 with the tag of the command is sent, and
  -- the next command can come. The disk has 80 blocks, but the block is not compared with that: the
  -- condition is only that the bytes end below 2 ^ 32.
  pub write_stored :
      (buf : ℕ → ℕ) (ps : List Packet) (s : Mass)
      → IsFree chip
      → s.mass_out_fsm ≡ OutFsm.cmd
      → IsCommand 0x2a false buf
      → (cbw_of buf).data_transfer_length ≡ total ps
      → All (λ p. 0 < p.size) ps
      → 0 < total ps
      → mass_storage_addr + logic_address (cbw_of buf) * 512 + total ps ≤ 2 ^ 32
      → (s' : Mass) × (receive chip
            (suc fuel)
            behind
            (record { buf = buf; size = sizeof_cbw } ∷ ps)
            s
          ≡ some s')
        × Written
            (commanded buf s)
            s.log
            (stored ps (mass_storage_addr + logic_address (cbw_of buf) * 512) s.ram)
            s'
  unfolding handle_write
  write_stored buf ps s free idle c e pos left fits =
      let a = logic_address (cbw_of buf) * 512 in
      let h₁ = arrival sizeof_cbw s.log in
      let s₀ = commanded buf (record s { log = h₁ }) in
      let begun : handle_write chip (suc fuel) (cbw_of buf) s₀
          ≡ receiving s₀ (total ps) 0 a s.ram h₁ =
        ap (λ k. receiving s₀ (cbw_of buf).data_transfer_length 0 k s.ram h₁) {x = a % 2 ^ 32}
          {y = a} (omega arith)
        ∙ ap (λ k. receiving s₀ k 0 a s.ram h₁) e in
      let (s', r, w) =
        transfer_lem ps s₀ (total ps) 0 a s.ram (clr_epx_out_pkt_rdy ∷ h₁) free refl pos left refl
          (omega arith) in
      (
        s',
        receive_step chip (suc fuel) behind (record { buf = buf; size = sizeof_cbw }) ps s _
              (command_lem chip fuel behind buf 0x2a false (record s { log = h₁ }) _ idle c
                (dispatch_write buf s₀ c ∙ ap (λ t. some t) begun))
            ∙ r,
        record {
          written = λ x.
              w.written x
              ∙ ap (λ k. stored ps k s.ram x) {x = mass_storage_addr + (a + 0)}
                  {y = mass_storage_addr + a} (omega arith);
          idle = w.idle;
          answered = w.answered;
          status =
              w.status
              ∙ ap (after (csw_of (cbw_of buf).tag 0) 0 sizeof_csw)
                  (sent-taken sizeof_cbw (Op.out_poll ∷ Op.out_poll ∷ s.log));
        },
      )
