-- ===== src/UsbMass.antt =====
-- drivers/usbslave/mass_storage: a memory that the host reads and writes as a disk, and the packets
-- of the endpoints 2 and 3 in drivers/usbslave/usb_lib.c that carry it.
--
-- What the driver does on the registers of the two endpoints is a history, the latest operation
-- first; the controller is hardware: what it answers is a function of the history. INDEX_REG is left
-- out. `none` means that the fuel of a wait ran out, that an assertion failed, or the endless loop
-- on a command that is not known.
pub mod Command
pub mod Packets
pub mod Arrivals
pub mod Stored
pub mod Sent
pub mod RoundTrip
pub mod Refused
use mine_os.Prelude.{
  ℕ, zero, suc, ◌+◌, ◌-◌, ◌*◌, ◌%◌, ◌/◌, ◌^◌, Bool, true, false, ◌&&◌, Option, none, some, List, [],
  ◌∷◌, ltb, leb, ◌==◌, if◌then◌else◌, get_or,
}
use mine_os.Bits.{test_bit}
use mine_os.Links.{update}

-- A byte written to the FIFO of endpoint 2, a byte taken from that of endpoint 3, a read of
-- IN_CSR1_REG or OUT_CSR1_REG, and the assignment REG = REG & ~clear | set to one of these.
pub data Op : Type 0 where
  fifo : ℕ → Op
  take : Op
  in_poll : Op
  out_poll : Op
  in_csr : (clear set : ℕ) → Op
  out_csr : (clear set : ℕ) → Op

abbrev pub History : Type 0
History = List Op

-- `out_fifo_cnt` is OUT_FIFO_CNT2_REG and OUT_FIFO_CNT1_REG as one number, `out_fifo` the byte that
-- the FIFO of endpoint 3 gives next.
pub record Chip : Type 0 where
  pub in_csr1 : History → ℕ
  pub out_csr1 : History → ℕ
  pub out_fifo_cnt : History → ℕ
  pub out_fifo : History → ℕ

-- What a buffer's pointer leads to: an address in the memory, or an array of the driver.
pub data Source : Type 0 where
  memory : ℕ → Source
  array : (ℕ → ℕ) → Source

-- ub[2]
pub record Ep2Buffer : Type 0 where
  pub source : Source
  pub size : ℕ
  pub count : ℕ

pub record Cbw : Type 0 where
  pub signature : ℕ
  pub tag : ℕ
  pub data_transfer_length : ℕ
  pub flags : ℕ
  pub lun : ℕ
  pub cb_length : ℕ
  pub cb : ℕ → ℕ

-- MASS_OUT_CMD and MASS_OUT_DATA
pub data OutFsm : Type 0 where
  cmd : OutFsm
  transfer : OutFsm

pub record WriteReq : Type 0 where
  pub spread_size : ℕ
  pub recvd_size : ℕ
  pub block_addr : ℕ

-- g_mass_req, write_req, mass_out_fsm and ub[2], the memory of the machine and the history. The tcsw
-- of g_mass_req is zero between the calls.
pub record Mass : Type 0 where
  pub tcbw : Cbw
  pub flg_req : Bool
  pub exec_status : ℕ
  pub write_req : WriteReq
  pub mass_out_fsm : OutFsm
  pub ub : Ep2Buffer
  pub ram : ℕ → ℕ
  pub log : History

abbrev pub ep2_pkt_size : ℕ
ep2_pkt_size = 64

abbrev pub ep3_pkt_size : ℕ
ep3_pkt_size = 64

abbrev pub mass_storage_addr : ℕ
mass_storage_addr = 0x30A0_0000

abbrev pub mass_storage_block_size : ℕ
mass_storage_block_size = 512

abbrev pub mass_storage_block_num : ℕ
mass_storage_block_num = 80

abbrev pub set_epx_in_pkt_rdy : Op
set_epx_in_pkt_rdy = Op.in_csr 0x49 0x01

abbrev pub clr_epx_in_sent_stall : Op
clr_epx_in_sent_stall = Op.in_csr 0x69 0

abbrev pub clr_epx_out_pkt_rdy : Op
clr_epx_out_pkt_rdy = Op.out_csr 0xb1 0

abbrev pub clr_epx_out_sent_stall : Op
clr_epx_out_sent_stall = Op.out_csr 0xf0 0

abbrev pub logged : Op → Mass → Mass
logged op s = record s { log = op ∷ s.log }

-- The byte at place i behind the pointer.
abbrev pub source_byte : (ℕ → ℕ) → Source → ℕ → ℕ
source_byte ram (Source.memory p) i = ram ((p + i) % 2 ^ 32)
source_byte ram (Source.array a) i = a i

abbrev pub is_null : Source → Bool
is_null (Source.memory p) = p == 0
is_null (Source.array a) = false

-- usb_send_init(EP2, ...), with the assertions of usb_buf_init.
unfoldable pub usb_send_init : Source → ℕ → Mass → Option Mass
usb_send_init buf size s =
    if is_null buf
    then none
    else (if size == 0
        then none
        else some (record s { ub = record { source = buf; size = size; count = 0 } }))

-- usb_buf_remain
abbrev pub remain : Ep2Buffer → ℕ
remain b = b.size - b.count

-- usb_send_is_empty(EP2)
abbrev pub usb_send_is_empty : Mass → Bool
usb_send_is_empty s = remain s.ub == 0

-- The loop of usb_buf_read_const with the FIFO as its destination, with n rounds left.
unfoldable pub epx_fifo_loop : ℕ → Mass → Mass
epx_fifo_loop zero s = s
epx_fifo_loop (suc n) s =
    let b = s.ub in
    let rest = epx_fifo_loop n (record s {
      ub = record b { count = b.count + 1 };
      log = Op.fifo (source_byte s.ram b.source b.count) ∷ s.log;
    }) in
    if ltb b.count b.size then rest else s

-- usb_buf_epx_tx(EP2, ...), with usb_buf_tx.
unfoldable pub usb_buf_epx_tx : Mass → Mass
usb_buf_epx_tx s =
    let n = (if leb ep2_pkt_size (remain s.ub) then ep2_pkt_size else remain s.ub) in
    let sent = epx_fifo_loop n s in
    logged set_epx_in_pkt_rdy (if ltb 0 (remain s.ub) then sent else s)

-- memcpy to the address p, with n bytes left after i.
unfoldable pub copy_bytes : ℕ → ℕ → ℕ → (ℕ → ℕ) → (ℕ → ℕ) → ℕ → ℕ
copy_bytes zero p i buf ram = ram
copy_bytes (suc n) p i buf ram = copy_bytes n p (i + 1) buf (update ram ((p + i) % 2 ^ 32) (buf i))

unfoldable pub usb_write_ramdisk : ℕ → (ℕ → ℕ) → ℕ → Mass → Mass
usb_write_ramdisk addr buf size s = record s {
  ram = copy_bytes size ((mass_storage_addr + addr) % 2 ^ 32) 0 buf s.ram;
}

module _ (chip : Chip) where
  -- WAIT_EPX_IN_PKT
  unfoldable pub wait_epx_in_pkt : ℕ → History → Option History
  wait_epx_in_pkt zero h = none
  wait_epx_in_pkt (suc fuel) h =
      let rest = wait_epx_in_pkt fuel (Op.in_poll ∷ h) in
      if test_bit (chip.in_csr1 h) 0 then rest else some (Op.in_poll ∷ h)

  -- usb_send_message(EP2)
  unfoldable pub usb_send_message_ep2 : ℕ → Mass → Option Mass
  usb_send_message_ep2 fuel s = elim (wait_epx_in_pkt fuel s.log) [
    | none ↦ none
    | some h ↦ some (usb_buf_epx_tx (record s { log = h }))
  ]

  unfoldable pub usb_read_ramdisk : ℕ → ℕ → ℕ → Mass → Option Mass
  usb_read_ramdisk fuel addr size s =
      elim (usb_send_init (Source.memory ((mass_storage_addr + addr) % 2 ^ 32)) size s) [
        | none ↦ none
        | some s' ↦ usb_send_message_ep2 fuel s'
      ]

  -- The loop of ep_rx_fifo over the FIFO of endpoint 3, with n bytes left after i.
  unfoldable pub rx_loop : ℕ → ℕ → (ℕ → ℕ) → History → (ℕ → ℕ) × History
  rx_loop zero i buf h = (buf, h)
  rx_loop (suc n) i buf h = rx_loop n (i + 1) (update buf i (chip.out_fifo h)) (Op.take ∷ h)

  -- ep_rx_fifo(EP3, buf, size): the size received, the buffer and the history.
  unfoldable pub ep_rx_fifo : ℕ → (ℕ → ℕ) → History → ℕ × (ℕ → ℕ) × History
  ep_rx_fifo size buf h =
      let real_size = chip.out_fifo_cnt h in
      let (buf', h') = rx_loop real_size 0 buf h in
      if ltb size real_size then (0, buf, h) else (real_size, buf', h')
