-- ===== src/UsbMass/Refused.antt =====
-- drivers/usbslave/mass_storage/usb_mass.c: reads whose two lengths differ, or are zero.
use mine_os.Prelude.{
  ℕ, suc, ◌+◌, ◌*◌, ◌%◌, ◌^◌, ◌<◌, ◌≡◌, ◌≢◌, ◌==◌, ◌∙◌, refl, ap, true, false, arith, Option, some,
  none, ◌∷◌, ltb, if◌then◌else◌, ==_false, ==_iff, lt→ltb, le→ltb_false, Bool-cases, inl, inr,
}
use mine_os.UsbMass.{
  Op, Chip, Mass, OutFsm, usb_send_init, usb_read_ramdisk, Cbw, clr_epx_out_pkt_rdy, logged,
  is_null, Source, mass_storage_addr,
}
use mine_os.UsbMass.Command.{
  handle_packet, handle_read, handle_mass_bulk_in, mass_command, cbw_of, csw_of, t_size,
  logic_address, sizeof_csw, sizeof_cbw,
}
use mine_os.UsbMass.Packets.{sent, after, sent-filled, IsFree, answered, handle_mass_bulk_in_lem}
use mine_os.UsbMass.Arrivals.{IsCommand, commanded, command_lem}

-- The status that answers a read of `size` bytes where the host announces `length`.
abbrev pub refusal : (size length : ℕ) → ℕ
refusal size length = if ltb size length then 1 else 2

empty_read :
    (chip : Chip) (fuel addr size : ℕ) (s : Mass)
    → size ≡ 0
    → usb_read_ramdisk chip fuel addr size s ≡ none
unfolding usb_read_ramdisk usb_send_init
empty_read chip fuel addr size s e =
    let buf = Source.memory ((mass_storage_addr + addr) % 2 ^ 32) in
    let g : usb_send_init buf size s ≡ none = elim (Bool-cases (is_null buf)) [
      | inl b ↦ rw b refl
      | inr b ↦ rw (b, (==_iff size 0).1 e) refl
    ] in
    rw (usb_read_ramdisk, g)

abbrev refused : Mass → ℕ → Mass
refused s v = answered (record s { exec_status = v })

module _ (chip : Chip) (fuel : ℕ) (free : IsFree chip) (x : Cbw) (s : Mass)
    (flg : s.flg_req ≡ true) where
  status_sent :
      (v : ℕ)
      → handle_mass_bulk_in chip (suc fuel) (record s { exec_status = v }) ≡ some (refused s v)
  status_sent v = handle_mass_bulk_in_lem chip fuel (record s { exec_status = v }) free flg

  read_more :
      t_size x < x.data_transfer_length → handle_read chip (suc fuel) x s ≡ some (refused s 1)
  unfolding handle_read
  read_more l = rw (
    ==_false x.data_transfer_length 0 (omega arith),
    lt→ltb (t_size x) x.data_transfer_length l,
    status_sent 1,
  )

  read_fewer :
      x.data_transfer_length < t_size x
      → 0 < x.data_transfer_length
      → handle_read chip (suc fuel) x s ≡ some (refused s 2)
  unfolding handle_read
  read_fewer l h = rw (
    ==_false x.data_transfer_length 0 (omega arith),
    le→ltb_false (t_size x) x.data_transfer_length (omega arith),
    lt→ltb x.data_transfer_length (t_size x) l,
    status_sent 2,
  )

  -- The status is set and answered, and then set again.
  read_none :
      x.data_transfer_length < t_size x
      → x.data_transfer_length ≡ 0
      → handle_read chip (suc fuel) x s ≡ some (record (refused s 2) { exec_status = 2 })
  unfolding handle_read handle_mass_bulk_in
  read_none l e = rw (
    (==_iff x.data_transfer_length 0).1 e,
    status_sent 2,
    le→ltb_false (t_size x) x.data_transfer_length (omega arith),
    lt→ltb x.data_transfer_length (t_size x) l,
  )

  read_nothing :
      x.data_transfer_length ≡ t_size x
      → x.data_transfer_length ≡ 0
      → handle_read chip (suc fuel) x s ≡ none
  unfolding handle_read
  read_nothing l e = rw (
    (==_iff x.data_transfer_length 0).1 e,
    status_sent 2,
    le→ltb_false (t_size x) x.data_transfer_length (omega arith),
    le→ltb_false x.data_transfer_length (t_size x) (omega arith),
    empty_read chip (suc fuel) (logic_address x * 512 % 2 ^ 32) (t_size x) (refused s 2)
        (omega arith),
  )

-- What a refused read leaves.
pub record Refused (x : Cbw) (s : Mass) (v : ℕ) (s' : Mass) : Type 0 where
  pub status : sent s'.log ≡ after (csw_of x.tag v) 0 sizeof_csw (sent s.log)
  pub same : s'.ram ≡ s.ram
  pub answered : s'.flg_req ≡ false
  pub idle : s'.mass_out_fsm ≡ OutFsm.cmd

module _ (chip : Chip) (fuel : ℕ) (behind buf : ℕ → ℕ) (s : Mass) where
  leaves :
      (v w : ℕ) (s' : Mass)
      → s.mass_out_fsm ≡ OutFsm.cmd
      → v ≡ w
      → s'.log ≡ (refused (commanded buf s) v).log
      → s'.ram ≡ s.ram
      → s'.flg_req ≡ false
      → s'.mass_out_fsm ≡ s.mass_out_fsm
      → Refused (cbw_of buf) s w (logged clr_epx_out_pkt_rdy s')
  leaves v w s' idle e log ram flg fsm = record {
    status =
        ap sent log
        ∙ sent-filled (csw_of (cbw_of buf).tag v) 0 sizeof_csw (Op.in_poll ∷ s.log)
        ∙ ap (λ k. after (csw_of (cbw_of buf).tag k) 0 sizeof_csw (sent s.log)) e;
    same = ram;
    answered = flg;
    idle = fsm ∙ idle;
  }

  dispatch_read :
      IsCommand 0x28 true buf
      → mass_command chip (suc fuel) behind (cbw_of buf) (commanded buf s)
        ≡ handle_read chip (suc fuel) (cbw_of buf) (commanded buf s)
  unfolding mass_command
  dispatch_read c = rw (mass_command, c.code, c.direction)

  -- A read whose command announces another number of bytes than t_size, which is the number of
  -- blocks, put together from two signed chars, times 512 on 32 bits, where the
  -- controller has always sent the packet before, sends nothing of the disk but the status: 1 where
  -- more bytes are announced, 2 where fewer are, none included; the memory is as it was, and the next
  -- command can come. But where t_size is 0 and no bytes are announced, it ends in an assertion that
  -- fails.
  pub read-Refused :
      IsFree chip
      → s.mass_out_fsm ≡ OutFsm.cmd
      → IsCommand 0x28 true buf
      → ((cbw_of buf).data_transfer_length ≢ t_size (cbw_of buf)
          → (s' : Mass) × (handle_packet chip (suc fuel) behind buf sizeof_cbw s ≡ some s')
            × Refused
                (cbw_of buf)
                s
                (refusal (t_size (cbw_of buf)) (cbw_of buf).data_transfer_length)
                s')
        × ((cbw_of buf).data_transfer_length ≡ 0
            → t_size (cbw_of buf) ≡ 0
            → handle_packet chip (suc fuel) behind buf sizeof_cbw s ≡ none)
  read-Refused free idle c =
      let x = cbw_of buf in
      let s₀ = commanded buf s in
      let handled = (λ (o : Option Mass) (e : handle_read chip (suc fuel) x s₀ ≡ o).
        command_lem chip fuel behind buf 0x28 true s o idle c (dispatch_read c ∙ e)) in
      (
        λ ne. elim (Bool-cases (ltb (t_size x) x.data_transfer_length)) [
          | inl more ↦ (
            logged clr_epx_out_pkt_rdy (refused s₀ 1),
            handled (some (refused s₀ 1))
                (read_more chip fuel free x s₀ refl (ground (arith, more))),
            leaves 1 _ (refused s₀ 1) idle (ground (arith, more)) refl refl refl refl,
          )
          | inr less ↦
              let fewer : x.data_transfer_length < t_size x = ground (arith, less, ne) in
              let two : 2 ≡ refusal (t_size x) x.data_transfer_length = ground (arith, less) in
              elim (Bool-cases (x.data_transfer_length == 0)) [
                | inl none_said ↦
                    let t = record (refused s₀ 2) { exec_status = 2 } in
                    (
                      logged clr_epx_out_pkt_rdy t,
                      handled (some t)
                          (read_none chip fuel free x s₀ refl fewer (ground (arith, none_said))),
                      leaves 2 _ t idle two refl refl refl refl,
                    )
                | inr some_said ↦ (
                  logged clr_epx_out_pkt_rdy (refused s₀ 2),
                  handled (some (refused s₀ 2))
                      (read_fewer chip fuel free x s₀ refl fewer (ground (arith, some_said))),
                  leaves 2 _ (refused s₀ 2) idle two refl refl refl refl,
                )
              ]
        ],
        λ e z. handled none (read_nothing chip fuel free x s₀ refl (omega (arith, e, z)) e),
      )
