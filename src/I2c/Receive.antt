-- ===== src/I2c/Receive.antt =====
-- drivers/i2c/s3c2440_i2c_controller.c: what a read stores, and the transfers that no device answers.
use mathlib.Core.List.{append-nil, append_assoc}
use mine_os.Prelude.{
  ℕ, zero, suc, ◌+◌, ◌-◌, ◌*◌, ◌%◌, ◌^◌, ◌<◌, ◌≤◌, ◌==◌, ◌≡◌, ◌∙◌, refl, sym, ap, subst, true,
  false, arith, if◌then◌else◌, Bool-cases, inl, inr, some, List, [], ◌∷◌, ◌++◌, length, lt→ltb,
  le→ltb_false, ==_false, bit_or,
}
use mine_os.Links.{update}
use mine_os.I2c.{
  Op, History, Chip, Msg, Transfer, no_ack, stop, resume, resume_read, resume_iic_with_ack,
  resume_iic_without_ack, read_interrupt, write_interrupt, i2c_interrupt_func, wait_transfer,
  do_master, do_master_tx, do_master_rx, start, begun, is_last_data,
}
use mine_os.I2c.Send.{sent, Stopped, Acks, not_yet, ended, plus_zero, plus_suc}

-- The bytes that were read from IICDS, in order.
abbrev pub received : History → List ℕ
received [] = []
received (Op.receive v ∷ h) = received h ++ v ∷ []
received (Op.send v ∷ h) = received h
received (Op.control v ∷ h) = received h
received (Op.status v ∷ h) = received h

-- The buffer b with bytes stored from place i on.
abbrev pub fill : (ℕ → ℕ) → ℕ → List ℕ → ℕ → ℕ
fill b i [] = b
fill b i (v ∷ vs) = fill (update b i v) (i + 1) vs

pub fill_apart : (b : ℕ → ℕ) (i : ℕ) (vs : List ℕ) (j : ℕ) → i + length vs ≤ j → fill b i vs j ≡ b j
fill_apart b i [] j h = refl
fill_apart b i (v ∷ vs) j h = fill_apart (update b i v) (i + 1) vs j (omega arith) ∙ (ground arith)

less_one : (i : ℕ) → i + 1 - 1 ≡ i
less_one i = omega arith

one_more : (n : ℕ) → 0 + 1 + n ≡ suc n
one_more n = omega arith

positive : (n : ℕ) → 0 < n → suc (n - 1) ≡ n
positive n h = omega arith

module _ (chip : Chip) where
  abbrev pub reading : ℕ → ℕ → ℕ → ℕ → (ℕ → ℕ) → Msg
  reading flags addr len i b = record {
    addr = addr;
    flags = flags;
    len = len;
    interrupts = i;
    failed = false;
    buf = b;
  }

  resume_read_logs :
      (m : Msg) (h : History)
      → (received (resume_read chip m h) ≡ received h) × (sent (resume_read chip m h) ≡ sent h)
  unfolding resume_read resume_iic_with_ack resume_iic_without_ack
  resume_read_logs m h = elim (Bool-cases (is_last_data m)) [
    | inl c ↦ rw c (refl, refl)
    | inr c ↦ rw c (refl, refl)
  ]

  module _ (flags : ℕ) (w : (flags == 0) ≡ false) (acks : Acks chip) where
    first_interrupt :
        (addr len : ℕ) (b : ℕ → ℕ) (h : History)
        → i2c_interrupt_func chip (record { msg = reading flags addr len 0 b; log = h }) ≡ record {
          msg = reading flags addr len 1 b;
          log = resume_read chip (reading flags addr len 1 b) h;
        }
    unfolding i2c_interrupt_func read_interrupt
    first_interrupt addr len b h = rw (w, acks h)

    next_byte :
        (addr len i : ℕ) (b : ℕ → ℕ) (h : History)
        → i + 1 < len
        → i2c_interrupt_func chip (record { msg = reading flags addr len (i + 1) b; log = h })
          ≡ record {
            msg = reading flags addr len (i + 1 + 1) (update b i (chip.iicds h));
            log =
                resume_read chip
                  (reading flags addr len (i + 1 + 1) b)
                  (Op.receive (chip.iicds h) ∷ h);
          }
    unfolding i2c_interrupt_func read_interrupt
    next_byte addr len i b h l =
        rw (w, ==_false (i + 1) 0 (omega arith), lt→ltb (i + 1) len l, less_one i)

    last_interrupt :
        (addr len : ℕ) (b : ℕ → ℕ) (h : History)
        → 0 < len
        → i2c_interrupt_func chip (record { msg = reading flags addr len len b; log = h })
          ≡ record { msg = reading flags addr len (len + 1) b; log = stop chip 0x90 h }
    unfolding i2c_interrupt_func read_interrupt
    last_interrupt addr len b h l =
        rw (w, ==_false len 0 (omega arith), le→ltb_false len len (omega arith))

    abbrev Received : ℕ → ℕ → (ℕ → ℕ) → ℕ → ℕ → ℕ → History → ℕ → Type 0
    Received addr len b interrupts i n h fuel =
        (vs : List ℕ) × (h' : History) × (wait_transfer chip fuel
            (record { msg = reading flags addr len interrupts b; log = h })
          ≡ some (record { msg = reading flags addr len (len + 1) (fill b i vs); log = h' }))
        × (length vs ≡ n)
        × (received h' ≡ received h ++ vs)
        × (sent h' ≡ sent h)
        × Stopped 0x90 h'

    -- After the interrupt of place i - 1, with n bytes left but the last.
    receive_rest :
        (n fuel addr i : ℕ) (b : ℕ → ℕ) (h : History)
        → n + 2 ≤ fuel
        → Received addr (i + 1 + n) b (i + 1) i n h fuel
    unfolding stop resume
    receive_rest n zero addr i b h f = absurd (omega arith)
    receive_rest zero (suc zero) addr i b h f = absurd (omega arith)
    receive_rest zero (suc (suc fuel)) addr i b h f = rw (plus_zero (i + 1)) (
      [],
      stop chip 0x90 h,
      not_yet chip (suc fuel) (reading flags addr (i + 1) (i + 1) b) h refl (omega arith)
          ∙ ap (wait_transfer chip (suc fuel)) (last_interrupt addr (i + 1) b h (omega arith))
          ∙ ended chip fuel (reading flags addr (i + 1) (i + 1 + 1) b) (stop chip 0x90 h) refl,
      refl,
      sym (append-nil (received h)),
      refl,
      refl,
    )
    receive_rest (suc n) (suc fuel) addr i b h f =
        let v = chip.iicds h in
        let m = reading flags addr (i + 1 + 1 + n) (i + 1 + 1) b in
        let (g, s) = resume_read_logs m (Op.receive v ∷ h) in
        let (vs, h', r, l, g', s', q) =
          receive_rest n fuel addr (i + 1) (update b i v) (resume_read chip m (Op.receive v ∷ h))
            (omega arith) in
        rw (plus_suc (i + 1) n) (
          v ∷ vs,
          h',
          not_yet chip fuel (reading flags addr (i + 1 + 1 + n) (i + 1) b) h refl (omega arith)
              ∙ ap (wait_transfer chip fuel) (next_byte addr (i + 1 + 1 + n) i b h (omega arith))
              ∙ r,
          ap suc l,
          g' ∙ ap (λ t. t ++ vs) g ∙ append_assoc (received h) (v ∷ []) vs,
          s' ∙ s,
          q,
        )

    -- From the start, with at least one byte to read.
    read_all :
        (n fuel addr : ℕ) (b : ℕ → ℕ) (h : History)
        → n + 3 ≤ fuel
        → Received addr (suc n) b 0 0 n h fuel
    read_all n zero addr b h f = absurd (omega arith)
    read_all n (suc fuel) addr b h f =
        let m = reading flags addr (suc n) 1 b in
        let (g, s) = resume_read_logs m h in
        let (vs, h', r, l, g', s', q) =
          subst
            (λ len.
              Received addr len b 1 0 n (resume_read chip (reading flags addr len 1 b) h) fuel)
            (one_more n)
            (receive_rest n fuel addr 0 b (resume_read chip (reading flags addr (0 + 1 + n) 1 b) h)
              (omega arith)) in
        (
          vs,
          h',
          not_yet chip fuel (reading flags addr (suc n) 0 b) h refl (omega arith)
              ∙ ap (wait_transfer chip fuel) (first_interrupt addr (suc n) b h)
              ∙ r,
          l,
          g' ∙ ap (λ t. t ++ vs) g,
          s' ∙ s,
          q,
        )

  -- `do_master_rx` of at least one byte, where the devices acknowledge and the fuel is at least the
  -- length plus two, returns 0 and stops the bus, but it reads and stores one byte less than the
  -- length: the last place of the buffer, and all beyond it, are as before.
  pub do_master_rx_short :
      (fuel : ℕ) (m : Msg) (h : History)
      → Acks chip
      → (m.flags == 0) ≡ false
      → 0 < m.len
      → m.len + 2 ≤ fuel
      → (vs : List ℕ) × (h' : History) × (do_master_rx chip fuel m h
          ≡ some (record {
            msg = record m { interrupts = m.len + 1; failed = false; buf = fill m.buf 0 vs };
            log = h';
          }))
        × (received h' ≡ received h ++ vs)
        × (length vs + 1 ≡ m.len)
        × ((j : ℕ) → m.len ≤ j + 1 → fill m.buf 0 vs j ≡ m.buf j)
        × (sent h' ≡ sent h ++ bit_or (m.addr * 2) 1 % 2 ^ 8 ∷ [])
        × Stopped 0x90 h'
  unfolding do_master_rx
  do_master_rx_short fuel m h acks w l f =
      let h₀ = start chip (bit_or (m.addr * 2) 1) 0xb0 h in
      let (vs, h', r, n, g, s, q) =
        subst (λ len. Received m.flags w acks m.addr len m.buf 0 0 (m.len - 1) h₀ fuel)
          (positive m.len l)
          (read_all m.flags w acks (m.len - 1) fuel m.addr m.buf h₀ (omega arith)) in
      (vs, h', r, g, omega (arith, n), λ j k. fill_apart m.buf 0 vs j (omega (arith, n)), s, q)

  -- What a transfer sends first.
  abbrev pub address_byte : Msg → ℕ
  address_byte m = (if m.flags == 0 then m.addr * 2 else bit_or (m.addr * 2) 1) % 2 ^ 8

  -- The history where the address is not acknowledged: the bus is stopped at once.
  abbrev unanswered : Msg → History → History
  unanswered m h =
      if m.flags == 0
      then stop chip 0xd0 (start chip (m.addr * 2) 0xf0 h)
      else stop chip 0x90 (start chip (bit_or (m.addr * 2) 1) 0xb0 h)

  failed_ends :
      (fuel : ℕ) (u : Transfer) → u.msg.failed ≡ true → wait_transfer chip (suc fuel) u ≡ some u
  unfolding wait_transfer
  failed_ends fuel u e = rw e

  one_round :
      (fuel : ℕ) (m : Msg) (h : History) (u : Transfer)
      → i2c_interrupt_func chip (record { msg = begun m; log = h }) ≡ u
      → u.msg.failed ≡ true
      → wait_transfer chip (suc (suc fuel)) (record { msg = begun m; log = h }) ≡ some u
  one_round fuel m h u e k =
      not_yet chip (suc fuel) (begun m) h refl (omega arith)
      ∙ ap (wait_transfer chip (suc fuel)) e
      ∙ failed_ends fuel u k

  no_device :
      (fuel : ℕ) (m : Msg) (h : History)
      → ((h : History) → no_ack chip h ≡ true)
      → do_master chip (suc (suc fuel)) m h
        ≡ some (record { msg = record m { interrupts = 1; failed = true }; log = unanswered m h })
  unfolding do_master do_master_tx do_master_rx i2c_interrupt_func write_interrupt read_interrupt
  no_device fuel m h nack = elim (Bool-cases (m.flags == 0)) [
    | inl c ↦ rw c (
        one_round fuel m (start chip (m.addr * 2) 0xf0 h) _
          (rw (c, nack (start chip (m.addr * 2) 0xf0 h))) refl)
    | inr c ↦ rw c (
        one_round fuel m (start chip (bit_or (m.addr * 2) 1) 0xb0 h) _
          (rw (c, nack (start chip (bit_or (m.addr * 2) 1) 0xb0 h))) refl)
  ]

  unanswered_lem :
      (m : Msg) (h : History)
      → (sent (unanswered m h) ≡ sent h ++ address_byte m ∷ [])
        × (received (unanswered m h) ≡ received h)
        × Stopped (if m.flags == 0 then 0xd0 else 0x90) (unanswered m h)
  unfolding stop resume
  unanswered_lem m h = elim (Bool-cases (m.flags == 0)) [
    | inl c ↦ rw c (refl, refl, refl)
    | inr c ↦ rw c (refl, refl, refl)
  ]

  -- A transfer of either direction, where no device acknowledges the address, returns -1 after the
  -- first interrupt, with 2 units of fuel: the one byte sent is the address, with bit 0 set for a
  -- read, nothing is read or stored, and the last write of IICSTAT stops the bus.
  pub do_master_no_device :
      (fuel : ℕ) (m : Msg) (h : History)
      → ((h : History) → no_ack chip h ≡ true)
      → (h' : History) × (do_master chip (suc (suc fuel)) m h
          ≡ some (record { msg = record m { interrupts = 1; failed = true }; log = h' }))
        × (sent h' ≡ sent h ++ address_byte m ∷ [])
        × (received h' ≡ received h)
        × Stopped (if m.flags == 0 then 0xd0 else 0x90) h'
  do_master_no_device fuel m h nack =
      let (out, back, end) = unanswered_lem m h in
      (unanswered m h, no_device fuel m h nack, out, back, end)
