-- ===== src/UsbMass/Command.antt =====
-- drivers/usbslave/mass_storage/usb_mass.c: the commands that the host sends in command blocks, the
-- status that answers them, and the handlers of the endpoints 2 and 3 in usb_dev_mass.c.
use mine_os.Prelude.{
  ℕ, ◌+◌, ◌-◌, ◌*◌, ◌%◌, ◌/◌, ◌^◌, true, false, ◌&&◌, Option, none, some, List, [], ◌∷◌, ltb, ◌==◌,
  if◌then◌else◌, bit_or, get_or,
}
use mine_os.Bits.{test_bit}
use mine_os.UsbMass.{
  Op, Chip, Source, Cbw, OutFsm, Mass, usb_send_init, usb_send_message_ep2, usb_send_is_empty,
  usb_read_ramdisk, usb_write_ramdisk, ep_rx_fifo, ep3_pkt_size, mass_storage_block_size,
  mass_storage_block_num, clr_epx_in_sent_stall, clr_epx_out_sent_stall, clr_epx_out_pkt_rdy,
  logged,
}

abbrev pub cbw_signature : ℕ
cbw_signature = 0x4342_5355

abbrev pub csw_signature : ℕ
csw_signature = 0x5342_5355

abbrev pub sizeof_cbw : ℕ
sizeof_cbw = 31

abbrev pub sizeof_csw : ℕ
sizeof_csw = 13

abbrev pub inquiry_rpy : List ℕ
inquiry_rpy =
    0x00 ∷ 0x80 ∷ 0x02 ∷ 0x02 ∷ 0x1f ∷ 0x00 ∷ 0x00 ∷ 0x00 ∷ b'M' ∷ b'a' ∷ b's' ∷ b's' ∷ b't' ∷ b'e'
    ∷ b's' ∷ b't' ∷ b'c' ∷ b'h' ∷ b'i' ∷ b'n' ∷ b'e' ∷ b's' ∷ b'e' ∷ b'c' ∷ b'h' ∷ b'i' ∷ b'n'
    ∷ b'e' ∷ b's' ∷ b'e' ∷ b'e' ∷ b'e' ∷ b'1' ∷ b'.' ∷ b'0' ∷ b'0' ∷ []

-- The four bytes of x, the highest first.
abbrev pub big_endian : ℕ → List ℕ → List ℕ
big_endian x rest = (x / 2 ^ 24 % 256) ∷ (x / 2 ^ 16 % 256) ∷ (x / 2 ^ 8 % 256) ∷ (x % 256) ∷ rest

abbrev pub read_fmt_cap_rpy : List ℕ
read_fmt_cap_rpy =
    0x00
    ∷ 0x00
    ∷ 0x00
    ∷ 0x08
    ∷ big_endian mass_storage_block_num (0x02 ∷ big_endian mass_storage_block_size [])

abbrev pub read_cap_rpy : List ℕ
read_cap_rpy = big_endian (mass_storage_block_num - 1) (big_endian mass_storage_block_size [])

abbrev pub bytes_at : List ℕ → ℕ → ℕ
bytes_at xs i = get_or xs i 0

-- The number in the n bytes of buf from place i on, the lowest first.
abbrev pub little : (ℕ → ℕ) → ℕ → ℕ
little buf i = buf i + buf (i + 1) * 2 ^ 8 + buf (i + 2) * 2 ^ 16 + buf (i + 3) * 2 ^ 24

-- The bytes of buf as a struct cbw.
unfoldable pub cbw_of : (ℕ → ℕ) → Cbw
cbw_of buf = record {
  signature = little buf 0;
  tag = little buf 4;
  data_transfer_length = little buf 8;
  flags = buf 12;
  lun = buf 13;
  cb_length = buf 14;
  cb = λ i. buf (15 + i);
}

abbrev pub no_cbw : Cbw
no_cbw = record {
  signature = 0;
  tag = 0;
  data_transfer_length = 0;
  flags = 0;
  lun = 0;
  cb_length = 0;
  cb = λ i. 0;
}

-- The fields of a CBDescriptor that are read; `logic_address` stands as the sum of its shifted bytes.
abbrev pub op_code : Cbw → ℕ
op_code c = c.cb 0

abbrev pub logic_address : Cbw → ℕ
logic_address c = c.cb 2 * 2 ^ 24 + c.cb 3 * 2 ^ 16 + c.cb 4 * 2 ^ 8 + c.cb 5

-- A byte that is read as a char, which is signed (-fsigned-char), on 32 bits.
unfoldable pub signed_char : ℕ → ℕ
signed_char b = if ltb b 128 then b else b + (2 ^ 32 - 256)

-- The number of blocks, put together from two chars.
unfoldable pub parameter : Cbw → ℕ
parameter c = bit_or (signed_char (c.cb 7) * 2 ^ 8 % 2 ^ 32) (signed_char (c.cb 8))

-- The number of bytes that a read is for, an unsigned int.
unfoldable pub t_size : Cbw → ℕ
t_size c = parameter c * mass_storage_block_size % 2 ^ 32

-- The bytes of a struct csw: signature, tag, residue and status.
unfoldable pub csw_of : ℕ → ℕ → ℕ → ℕ
csw_of tag status = bytes_at (
    0x55
    ∷ 0x53
    ∷ 0x42
    ∷ 0x53
    ∷ (tag % 256)
    ∷ (tag / 2 ^ 8 % 256)
    ∷ (tag / 2 ^ 16 % 256)
    ∷ (tag / 2 ^ 24 % 256)
    ∷ 0
    ∷ 0
    ∷ 0
    ∷ 0
    ∷ (status % 256)
    ∷ [])

module _ (chip : Chip) (fuel : ℕ) where
  -- usb_send_init(EP2, buf, size) and usb_send_message(EP2)
  unfoldable pub send_reply : Source → ℕ → Mass → Option Mass
  send_reply buf size s = elim (usb_send_init buf size s) [
    | none ↦ none
    | some s' ↦ usb_send_message_ep2 chip fuel s'
  ]

  -- The int that it returns is read by nobody.
  unfoldable pub handle_mass_bulk_in : Mass → Option Mass
  handle_mass_bulk_in s =
      if s.flg_req
      then elim (send_reply (Source.array (csw_of s.tcbw.tag s.exec_status)) sizeof_csw s) [
        | none ↦ none
        | some s' ↦ some (record s' { flg_req = false; exec_status = 0; tcbw = no_cbw })
      ]
      else some s

  -- The case Read, for a request of the host for data.
  unfoldable pub handle_read : Cbw → Mass → Option Mass
  handle_read c s =
      let size = t_size c in
      let status = (λ (v : ℕ) (t : Mass). handle_mass_bulk_in (record t { exec_status = v })) in
      let rest = (λ (t : Mass).
        if ltb size c.data_transfer_length
        then status 1 t
        else (if ltb c.data_transfer_length size
            then status 2 t
            else usb_read_ramdisk chip fuel (logic_address c * mass_storage_block_size % 2 ^ 32)
                size t)) in
      if c.data_transfer_length == 0
      then elim (status 2 s) [ none ↦ none | some t ↦ rest t ]
      else rest s

  -- The case Write.
  unfoldable pub handle_write : Cbw → Mass → Mass
  handle_write c s = record s {
    write_req = record {
      spread_size = c.data_transfer_length;
      block_addr = logic_address c * mass_storage_block_size % 2 ^ 32;
      recvd_size = 0;
    };
    mass_out_fsm = OutFsm.transfer;
  }

  -- ModeSense_rpy has four bytes; what stands behind it in the memory is `behind`.
  abbrev pub mode_sense_rpy : (ℕ → ℕ) → ℕ → ℕ
  mode_sense_rpy behind i =
      if ltb i 4 then bytes_at (0x03 ∷ 0x00 ∷ 0x00 ∷ 0x00 ∷ []) i else behind i

  -- The switch on the code of the command.
  unfoldable pub mass_command : (ℕ → ℕ) → Cbw → Mass → Option Mass
  mass_command behind c s =
      let op = op_code c in
      let to_host = test_bit c.flags 7 in
      let answer =
        (λ (buf : Source) (size : ℕ). if to_host then send_reply buf size s else some s) in
      if op == 0x00
      then handle_mass_bulk_in s
      else if op == 0x12
      then answer (Source.array (bytes_at inquiry_rpy)) 36
      else if op == 0x23
      then answer (Source.array (bytes_at read_fmt_cap_rpy)) 13
      else if op == 0x25
      then answer (Source.array (bytes_at read_cap_rpy)) 8
      else if op == 0x28
      then (if to_host then handle_read c s else some s)
      else if op == 0x2a
      then (if to_host then some s else some (handle_write c s))
      else if op == 0x03
      then some s
      else if op == 0x1a
      then answer (Source.array (mode_sense_rpy behind)) c.data_transfer_length
      else if op == 0x04
      then some s
      else if op == 0x2f
      then some s
      else if op == 0x1e
      then handle_mass_bulk_in s
      else none

  unfoldable pub handle_mass_bulk_cmd : (ℕ → ℕ) → (ℕ → ℕ) → ℕ → Mass → Option Mass
  handle_mass_bulk_cmd behind buf size s =
      let c = cbw_of buf in
      if size == sizeof_cbw && c.signature == cbw_signature
      then mass_command behind c (record s { tcbw = c; flg_req = true; exec_status = 0 })
      else some s

  -- The case MASS_OUT_DATA.
  unfoldable pub handle_data : (ℕ → ℕ) → ℕ → Mass → Option Mass
  handle_data buf size s =
      let w = s.write_req in
      let left = (w.spread_size + 2 ^ 32 - size) % 2 ^ 32 in
      let s₁ =
        usb_write_ramdisk ((w.block_addr + w.recvd_size) % 2 ^ 32) buf size
          (record s { write_req = record w { spread_size = left } }) in
      if left == 0
      then elim (handle_mass_bulk_in s₁) [
        | none ↦ none
        | some s₂ ↦ some (record s₂ {
          mass_out_fsm = OutFsm.cmd;
          write_req = record { spread_size = 0; recvd_size = 0; block_addr = 0 };
        })
      ]
      else some (record s₁ {
        write_req = record w { spread_size = left; recvd_size = (w.recvd_size + size) % 2 ^ 32 };
      })

  -- The switch on mass_out_fsm and CLR_EPX_OUT_PKT_RDY, for a packet in buf.
  unfoldable pub handle_packet : (ℕ → ℕ) → (ℕ → ℕ) → ℕ → Mass → Option Mass
  handle_packet behind buf size s =
      let r : Option Mass = elim s.mass_out_fsm [
        | OutFsm.cmd ↦ handle_mass_bulk_cmd behind buf size s
        | OutFsm.transfer ↦ handle_data buf size s
      ] in
      elim r [ none ↦ none | some t ↦ some (logged clr_epx_out_pkt_rdy t) ]

  -- buf is not initialised: `old` is what it holds before.
  unfoldable pub handle_mass_bulk_out : (behind old : ℕ → ℕ) → Mass → Option Mass
  handle_mass_bulk_out behind old s =
      let h = Op.out_poll ∷ s.log in
      let (size, buf, h') = ep_rx_fifo chip ep3_pkt_size old h in
      if test_bit (chip.out_csr1 s.log) 0
      then handle_packet behind buf size (record s { log = h' })
      else none

  -- Ep2Handler and Ep3Handler of usb_dev_mass.c, with epx_status_common of usb_isr.c.
  unfoldable pub ep2_handler : Mass → Option Mass
  ep2_handler s =
      let s' = logged Op.in_poll s in
      if test_bit (chip.in_csr1 s.log) 5
      then some (logged clr_epx_in_sent_stall s')
      else (if usb_send_is_empty s
          then handle_mass_bulk_in s'
          else usb_send_message_ep2 chip fuel s')

  unfoldable pub ep3_handler : (behind old : ℕ → ℕ) → Mass → Option Mass
  ep3_handler behind old s =
      let s' = logged Op.out_poll s in
      if test_bit (chip.out_csr1 s.log) 6
      then some (logged clr_epx_out_sent_stall s')
      else handle_mass_bulk_out behind old s'
