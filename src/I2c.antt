-- ===== src/I2c.antt =====
-- drivers/i2c: the master of s3c2440_i2c_controller.c, whose transfers its interrupt drives, and the
-- EEPROM of at24cxx.c above it.
--
-- What the driver does on the registers is a history, the latest operation first. The controller
-- and the devices on the bus are hardware: what is read from a register is a function of the
-- history. A transfer waits for interrupts on fuel, one unit an interrupt, and `none` means that
-- the fuel ran out.
pub mod Send
pub mod Receive
pub mod Eeprom
use mine_os.Prelude.{
  ℕ, zero, suc, ◌+◌, ◌-◌, ◌*◌, ◌/◌, ◌%◌, ◌^◌, Bool, true, false, not, ◌&&◌, ◌||◌, Option, none,
  some, List, [], ◌∷◌, ltb, ◌==◌, if◌then◌else◌, bit_and, bit_or,
}
use mine_os.Links.{update}

-- A write of IICCON, IICSTAT or IICDS, and a read of IICDS with what it gave.
pub data Op : Type 0 where
  control : ℕ → Op
  status : ℕ → Op
  send : ℕ → Op
  receive : ℕ → Op

abbrev pub History : Type 0
History = List Op

pub record Chip : Type 0 where
  pub iiccon : History → ℕ
  pub iicstat : History → ℕ
  pub iicds : History → ℕ

-- `interrupts` is cnt_transferred + 1, which starts at 0, and `failed` says that err is -1.
pub record Msg : Type 0 where
  pub addr : ℕ
  pub flags : ℕ
  pub len : ℕ
  pub interrupts : ℕ
  pub failed : Bool
  pub buf : ℕ → ℕ

-- The message under way, *p_cur_msg, and the history.
pub record Transfer : Type 0 where
  pub msg : Msg
  pub log : History

-- isLastData: cnt_transferred is len - 1.
abbrev pub is_last_data : Msg → Bool
is_last_data m = m.interrupts == m.len

abbrev pub at24cxx_addr : ℕ
at24cxx_addr = 0x50

abbrev pub begun : Msg → Msg
begun m = record m { interrupts = 0; failed = false }

-- The message that carries the address, whose buffer is the variable itself, least byte first.
abbrev pub address_msg : ℕ → Msg
address_msg addr = record {
  addr = at24cxx_addr;
  flags = 0;
  len = 1;
  interrupts = 0;
  failed = false;
  buf = λ j. addr / 2 ^ (8 * j) % 2 ^ 8;
}

abbrev pub data_msg : (ℕ → ℕ) → ℕ → Msg
data_msg d len = record {
  addr = at24cxx_addr;
  flags = 1;
  len = len;
  interrupts = 0;
  failed = false;
  buf = d;
}

-- The messages after the transfer, and whether it returns -1.
pub record XferResult : Type 0 where
  pub msgs : List Msg
  pub failed : Bool
  pub log : History

abbrev pub prepend : Msg → Option XferResult → Option XferResult
prepend m none = none
prepend m (some o) = some (record o { msgs = m ∷ o.msgs })

module _ (chip : Chip) where
  unfoldable pub resume_iic_with_ack : History → History
  resume_iic_with_ack h = Op.control (bit_and (bit_or (chip.iiccon h) 0x80) 0xef) ∷ h

  unfoldable pub resume_iic_without_ack : History → History
  resume_iic_without_ack h = Op.control (bit_and (chip.iiccon h) 0x6f) ∷ h

  -- IICCON &= ~(1 << 4)
  unfoldable pub resume : History → History
  resume h = Op.control (bit_and (chip.iiccon h) 0xef) ∷ h

  unfoldable pub stop : ℕ → History → History
  stop v h = resume (Op.status v ∷ h)

  -- The bit 0 of IICSTAT is set where no device has acknowledged.
  unfoldable pub no_ack : History → Bool
  no_ack h = not (bit_and (chip.iicstat h) 1 == 0)

  -- i2c_interrupt_func of a write. m is the message with the interrupt counted, and i the new value
  -- of cnt_transferred.
  unfoldable pub write_interrupt : ℕ → Msg → History → Transfer
  write_interrupt i m h =
      if i == 0 && no_ack h
      then record { msg = record m { failed = true }; log = stop 0xd0 h }
      else (if ltb i m.len
          then record { msg = m; log = resume (Op.send (m.buf i) ∷ h) }
          else record { msg = m; log = stop 0xd0 h })

  unfoldable pub resume_read : Msg → History → History
  resume_read m h = if is_last_data m then resume_iic_without_ack h else resume_iic_with_ack h

  -- The same of a read.
  unfoldable pub read_interrupt : ℕ → Msg → History → Transfer
  read_interrupt i m h =
      if i == 0
      then (if no_ack h
          then record { msg = record m { failed = true }; log = stop 0x90 h }
          else record { msg = m; log = resume_read m h })
      else (if ltb i m.len
          then record {
            msg = record m { buf = update m.buf (i - 1) (chip.iicds h) };
            log = resume_read m (Op.receive (chip.iicds h) ∷ h);
          }
          else record { msg = m; log = stop 0x90 h })

  unfoldable pub i2c_interrupt_func : Transfer → Transfer
  i2c_interrupt_func t =
      let m = record t.msg { interrupts = t.msg.interrupts + 1 } in
      if m.flags == 0
      then write_interrupt t.msg.interrupts m t.log
      else read_interrupt t.msg.interrupts m t.log

  -- while (!msg->err && msg->cnt_transferred != msg->len);
  unfoldable pub wait_transfer : ℕ → Transfer → Option Transfer
  wait_transfer zero t = none
  wait_transfer (suc fuel) t =
      let rest = wait_transfer fuel (i2c_interrupt_func t) in
      if t.msg.failed || t.msg.interrupts == t.msg.len + 1 then some t else rest

  -- The registers at the start: address is what IICDS gets, and go what starts the transfer.
  abbrev pub start : ℕ → ℕ → History → History
  start address go h =
      Op.status go
      ∷ Op.send (address % 2 ^ 8)
      ∷ Op.status 0x10
      ∷ Op.control (bit_or (chip.iiccon h) 0x80)
      ∷ h

  unfoldable pub do_master_tx : ℕ → Msg → History → Option Transfer
  do_master_tx fuel m h =
      wait_transfer fuel (record { msg = begun m; log = start (m.addr * 2) 0xf0 h })

  unfoldable pub do_master_rx : ℕ → Msg → History → Option Transfer
  do_master_rx fuel m h =
      wait_transfer fuel (record { msg = begun m; log = start (bit_or (m.addr * 2) 1) 0xb0 h })

  unfoldable pub do_master : ℕ → Msg → History → Option Transfer
  do_master fuel m h = if m.flags == 0 then do_master_tx fuel m h else do_master_rx fuel m h

  unfoldable pub s3c2440_master_xfer : ℕ → List Msg → History → Option XferResult
  s3c2440_master_xfer fuel [] h = some (record { msgs = []; failed = false; log = h })
  s3c2440_master_xfer fuel (m ∷ ms) h = elim (do_master fuel m h) [
    | none ↦ none
    | some t ↦
        let rest = prepend t.msg (s3c2440_master_xfer fuel ms t.log) in
        if t.msg.failed
        then some (record { msgs = t.msg ∷ ms; failed = true; log = t.log })
        else rest
  ]

  -- at24cxx_write, from the byte of `data` at place i on, with n bytes left; true is -1.
  unfoldable pub at24cxx_write_from : ℕ → ℕ → (ℕ → ℕ) → ℕ → ℕ → History → Option (Bool × History)
  at24cxx_write_from fuel addr d i zero h = some (false, h)
  at24cxx_write_from fuel addr d i (suc n) h =
      let m : Msg = record {
        addr = at24cxx_addr;
        flags = 0;
        len = 2;
        interrupts = 0;
        failed = false;
        buf = λ j. if j == 0 then addr % 2 ^ 8 else d i;
      } in
      elim (s3c2440_master_xfer fuel (m ∷ []) h) [
        | none ↦ none
        | some o ↦
            let rest = at24cxx_write_from fuel ((addr + 1) % 2 ^ 32) d (i + 1) n o.log in
            if o.failed then some (true, o.log) else rest
      ]

  unfoldable pub at24cxx_write : ℕ → ℕ → (ℕ → ℕ) → ℕ → History → Option (Bool × History)
  at24cxx_write fuel addr d len h = at24cxx_write_from fuel addr d 0 len h

  unfoldable pub at24cxx_read : ℕ → ℕ → (ℕ → ℕ) → ℕ → History → Option XferResult
  at24cxx_read fuel addr d len h =
      s3c2440_master_xfer fuel (address_msg addr ∷ data_msg d len ∷ []) h
