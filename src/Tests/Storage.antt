-- ===== src/Tests/Storage.antt =====
-- The theorems on drivers/usbslave/mass_storage: one block that the host writes in eight packets and
-- reads, and reads that are refused.
use mine_os.Prelude.{
  ℕ, ◌+◌, ◌*◌, ◌≡◌, ◌≢◌, ◌<◌, ◌≤◌, refl, true, false, List, [], ◌∷◌, some, none, arith, replicate,
}
use mine_os.UsbMass
use mine_os.UsbMass.{Op, Mass, OutFsm, Source, mass_storage_addr}
use mine_os.UsbMass.Command.{
  bytes_at, cbw_of, csw_of, no_cbw, logic_address, t_size, parameter, signed_char, sizeof_cbw,
  sizeof_csw, ep3_handler, handle_packet,
}
use mine_os.UsbMass.Packets.{sent, after}
use mine_os.UsbMass.Arrivals.{Packet, stream, arrived, receive, IsCommand, commanded}
use mine_os.UsbMass.Stored.{stored, Written, write_stored}
use mine_os.UsbMass.Sent.{read_out}
use mine_os.UsbMass.RoundTrip.{read-write, ep3_handler_lem}
use mine_os.UsbMass.Refused.{Refused, refusal, read-Refused}

-- A controller that has always sent the packet before, and that has a packet of 64 bytes for
-- endpoint 3.
abbrev quick : UsbMass.Chip
quick = record { in_csr1 = λ _. 0; out_csr1 = λ _. 1; out_fifo_cnt = λ _. 64; out_fifo = λ _. 7 }

abbrev behind : ℕ → ℕ
behind i = 0

abbrev idle_mass : Mass
idle_mass = record {
  tcbw = no_cbw;
  flg_req = false;
  exec_status = 0;
  write_req = record { spread_size = 0; recvd_size = 0; block_addr = 0 };
  mass_out_fsm = OutFsm.cmd;
  ub = record { source = Source.array behind; size = 13; count = 13 };
  ram = λ a. 0;
  log = [];
}

-- A command block for the operation on block 2: the bytes that it announces, high and low, its
-- direction and the number of blocks.
abbrev block : (op high flags blocks : ℕ) → ℕ → ℕ
block op high flags blocks = bytes_at (
    0x55 ∷ 0x53 ∷ 0x42 ∷ 0x43 ∷ 1 ∷ 2 ∷ 3 ∷ 4 ∷ 0 ∷ high ∷ 0 ∷ 0 ∷ flags ∷ 0 ∷ 10 ∷ op ∷ 0 ∷ 0 ∷ 0
    ∷ 0 ∷ 2 ∷ 0 ∷ 0 ∷ blocks ∷ [])

write-IsCommand : IsCommand 0x2a false (block 0x2a 2 0 1)
unfolding cbw_of
write-IsCommand = record { signature = refl; code = refl; direction = refl }

read-IsCommand : (high blocks : ℕ) → IsCommand 0x28 true (block 0x28 high 0x80 blocks)
unfolding cbw_of
read-IsCommand high blocks = record { signature = refl; code = refl; direction = refl }

abbrev packets : List Packet
packets = replicate 8 (record { buf = λ i. i + 1; size = 64 })

write_stored_example :
    (s : Mass) × (receive quick 1 behind
        (record { buf = block 0x2a 2 0 1; size = sizeof_cbw } ∷ packets)
        idle_mass
      ≡ some s)
    × Written
        (commanded (block 0x2a 2 0 1) idle_mass)
        []
        (stored packets
          (mass_storage_addr + logic_address (cbw_of (block 0x2a 2 0 1)) * 512)
          (λ a. 0))
        s
unfolding cbw_of
write_stored_example =
    write_stored quick 0 behind (block 0x2a 2 0 1) packets idle_mass (λ h. refl) refl
      write-IsCommand refl (omega arith) (omega arith) (omega arith)

read-write_example :
    (s₁ s₂ : Mass) × (receive quick 1 behind
        (record { buf = block 0x2a 2 0 1; size = sizeof_cbw } ∷ packets)
        idle_mass
      ≡ some s₁)
    × (read_out quick 1 behind
          (block 0x28 2 0x80 1)
          8
          (arrived (record { buf = block 0x28 2 0x80 1; size = sizeof_cbw }) s₁)
        ≡ some s₂)
    × (sent s₂.log
        ≡ after
            (csw_of (cbw_of (block 0x28 2 0x80 1)).tag 0)
            0
            sizeof_csw
            (after (stream packets) 0 512 (sent s₁.log)))
unfolding cbw_of
read-write_example =
    read-write quick 0 behind (block 0x2a 2 0 1) (block 0x28 2 0x80 1) 1 packets idle_mass
      (λ h. refl) (λ h. refl) refl write-IsCommand (read-IsCommand 2 1) refl refl
      (omega arith, omega arith, refl) refl refl (omega arith) (omega arith) (omega arith)

read-Refused_example :
    ((◌≢◌ {A = ℕ} 512 1024)
      → (s : Mass) × (handle_packet quick 1 behind (block 0x28 2 0x80 2) sizeof_cbw idle_mass
          ≡ some s)
        × Refused (cbw_of (block 0x28 2 0x80 2)) idle_mass (refusal 1024 512) s)
    × (◌≡◌ {A = ℕ} 512 0
        → ◌≡◌ {A = ℕ} 1024 0
        → handle_packet quick 1 behind (block 0x28 2 0x80 2) sizeof_cbw idle_mass ≡ none)
unfolding cbw_of t_size parameter signed_char
read-Refused_example =
    read-Refused quick 0 behind (block 0x28 2 0x80 2) idle_mass (λ h. refl) refl
      (read-IsCommand 2 2)

ep3_handler_example :
    (64 ≤ 64
      → (buf : ℕ → ℕ) × (ep3_handler quick 1 behind behind idle_mass
          ≡ handle_packet quick 1 behind buf 64
              (arrived (record { buf = buf; size = 64 }) idle_mass))
        × ((k : ℕ) → k < 64 → buf k ≡ 7))
    × (64 < 64
        → ep3_handler quick 1 behind behind idle_mass
          ≡ handle_packet quick 1 behind behind 0
              (arrived (record { buf = behind; size = 0 }) idle_mass))
ep3_handler_example = ep3_handler_lem quick 1 behind behind idle_mass refl refl 64 refl

-- A read of 128 blocks is taken for one of 0xffff0000 bytes.
t_size-128 : t_size (cbw_of (block 0x28 0 0x80 128)) ≡ 0xffff_0000
unfolding cbw_of t_size parameter signed_char
t_size-128 = refl
