-- ===== src/UsbMass/Arrivals.antt =====
-- drivers/usbslave/mass_storage: the packets of endpoint 3 as they arrive, and the command blocks among
-- them.
use mine_os.Prelude.{
  ℕ, zero, suc, ◌+◌, ◌-◌, ◌≡◌, refl, sym, subst, Bool, true, Option, some, none, List, [], ◌∷◌, ltb,
  if◌then◌else◌, ==_iff,
}
use mine_os.Bits.{test_bit}
use mine_os.UsbMass.{Op, History, Chip, Mass, OutFsm, clr_epx_out_pkt_rdy, logged}
use mine_os.UsbMass.Command.{
  handle_packet, handle_mass_bulk_cmd, mass_command, cbw_of, op_code, cbw_signature, sizeof_cbw,
}
use mine_os.UsbMass.Packets.{sent}

pub record Packet : Type 0 where
  pub buf : ℕ → ℕ
  pub size : ℕ

-- The bytes of the packets, one after the other.
abbrev pub stream : List Packet → ℕ → ℕ
stream [] i = 0
stream (p ∷ ps) i = if ltb i p.size then p.buf i else stream ps (i - p.size)

abbrev pub total : List Packet → ℕ
total [] = 0
total (p ∷ ps) = p.size + total ps

-- The history after n bytes are taken from the FIFO.
abbrev pub taken : ℕ → History → History
taken zero h = h
taken (suc n) h = taken n (Op.take ∷ h)

-- The history when the handler of endpoint 3 has read a packet of n bytes.
abbrev pub arrival : ℕ → History → History
arrival n h = taken n (Op.out_poll ∷ Op.out_poll ∷ h)

pub sent-taken : (n : ℕ) (h : History) → sent (taken n h) ≡ sent h
sent-taken zero h = refl
sent-taken (suc n) h = sent-taken n (Op.take ∷ h)

abbrev pub arrived : Packet → Mass → Mass
arrived p s = record s { log = arrival p.size s.log }

module _ (chip : Chip) (fuel : ℕ) (behind : ℕ → ℕ) where
  -- The packets of endpoint 3, one after the other.
  abbrev pub receive : List Packet → Mass → Option Mass
  receive [] s = some s
  receive (p ∷ ps) s = elim (handle_packet chip fuel behind p.buf p.size (arrived p s)) [
    | none ↦ none
    | some t ↦ receive ps t
  ]

  pub receive_step :
      (p : Packet) (ps : List Packet) (s t : Mass)
      → handle_packet chip fuel behind p.buf p.size (arrived p s) ≡ some t
      → receive (p ∷ ps) s ≡ receive ps t
  receive_step p ps s t e = rw (receive, e)

-- buf holds a command block for the operation, in the direction of bit 7 of the flags.
pub record IsCommand (op : ℕ) (to_host : Bool) (buf : ℕ → ℕ) : Type 0 where
  pub signature : (cbw_of buf).signature ≡ cbw_signature
  pub code : op_code (cbw_of buf) ≡ op
  pub direction : test_bit (cbw_of buf).flags 7 ≡ to_host

-- The state when the command is taken.
abbrev pub commanded : (ℕ → ℕ) → Mass → Mass
commanded buf s = record s { tcbw = cbw_of buf; flg_req = true; exec_status = 0 }

-- A command that returns is acknowledged.
abbrev pub acknowledged : Option Mass → Option Mass
acknowledged o = elim o [ none ↦ none | some t ↦ some (logged clr_epx_out_pkt_rdy t) ]

module _ (chip : Chip) (fuel : ℕ) (behind : ℕ → ℕ) where
  idle_command :
      (buf : ℕ → ℕ) (op : ℕ) (to_host : Bool) (s : Mass) (o : Option Mass)
      → IsCommand op to_host buf
      → mass_command chip
          (suc fuel)
          behind
          (cbw_of buf)
          (commanded buf (record s { mass_out_fsm = OutFsm.cmd }))
        ≡ o
      → handle_packet chip (suc fuel) behind buf sizeof_cbw (record s { mass_out_fsm = OutFsm.cmd })
        ≡ acknowledged o
  unfolding handle_packet handle_mass_bulk_cmd
  idle_command buf op to_host s o c e =
      let done : handle_mass_bulk_cmd chip (suc fuel) behind buf sizeof_cbw
            (record s { mass_out_fsm = OutFsm.cmd })
          ≡ o =
        rw ((==_iff _ cbw_signature).1 c.signature) e in
      rw (handle_packet, done)

  pub command_lem :
      (buf : ℕ → ℕ) (op : ℕ) (to_host : Bool) (s : Mass) (o : Option Mass)
      → s.mass_out_fsm ≡ OutFsm.cmd
      → IsCommand op to_host buf
      → mass_command chip (suc fuel) behind (cbw_of buf) (commanded buf s) ≡ o
      → handle_packet chip (suc fuel) behind buf sizeof_cbw s ≡ acknowledged o
  command_lem buf op to_host s o idle c =
      subst
        (λ f.
          mass_command chip (suc fuel) behind (cbw_of buf)
              (commanded buf (record s { mass_out_fsm = f }))
            ≡ o
          → handle_packet chip (suc fuel) behind buf sizeof_cbw (record s { mass_out_fsm = f })
            ≡ acknowledged o)
        (sym idle) (idle_command buf op to_host s o c)
