-- ===== src/I2c/Send.antt =====
-- drivers/i2c/s3c2440_i2c_controller.c: what a write puts on the bus, and when it fails.
use mine_os.Prelude.{
  ℕ, zero, suc, ◌+◌, ◌*◌, ◌%◌, ◌^◌, ◌<◌, ◌≤◌, ◌==◌, ◌≡◌, ◌≢◌, ==_iff, ◌∙◌, refl, sym, ap, subst,
  Bool, true, false, ◌&&◌, arith, Bool-cases, inl, inr, some, List, [], ◌∷◌, ◌++◌, lt→ltb,
  le→ltb_false, ==_false,
}
use mathlib.Core.List.{append-nil, append_assoc}
use mine_os.I2c.{
  Op, History, Chip, Msg, no_ack, stop, resume, write_interrupt, i2c_interrupt_func, wait_transfer,
  do_master_tx, start,
}

-- The bytes that IICDS got, in order.
abbrev pub sent : History → List ℕ
sent [] = []
sent (Op.send v ∷ h) = sent h ++ v ∷ []
sent (Op.receive v ∷ h) = sent h
sent (Op.control v ∷ h) = sent h
sent (Op.status v ∷ h) = sent h

-- The n bytes of a buffer from place i on.
abbrev pub slice : (ℕ → ℕ) → ℕ → ℕ → List ℕ
slice b i zero = []
slice b i (suc n) = b i ∷ slice b (i + 1) n

-- The last write of IICSTAT was v: 0xd0 and 0x90 end a transfer.
abbrev pub Stopped : ℕ → History → Type 0
Stopped v [] = ⊥
Stopped v (Op.status w ∷ h) = w ≡ v
Stopped v (Op.control w ∷ h) = Stopped v h
Stopped v (Op.send w ∷ h) = Stopped v h
Stopped v (Op.receive w ∷ h) = Stopped v h

pub plus_zero : (i : ℕ) → i + 0 ≡ i
plus_zero i = omega arith

pub plus_suc : (i n : ℕ) → i + suc n ≡ i + 1 + n
plus_suc i n = omega arith

and_false : (b : Bool) → (b && false) ≡ false
and_false true = refl
and_false false = refl

module _ (chip : Chip) where
  -- Some device answers to every address.
  abbrev pub Acks : Type 0
  Acks = (h : History) → no_ack chip h ≡ false

  -- A write of len bytes from b after i interrupts.
  abbrev pub writing : ℕ → ℕ → ℕ → (ℕ → ℕ) → Msg
  writing addr len i b = record {
    addr = addr;
    flags = 0;
    len = len;
    interrupts = i;
    failed = false;
    buf = b;
  }

  pub not_yet :
      (fuel : ℕ) (m : Msg) (h : History)
      → m.failed ≡ false
      → m.interrupts ≢ m.len + 1
      → wait_transfer chip (suc fuel) (record { msg = m; log = h })
        ≡ wait_transfer chip fuel (i2c_interrupt_func chip (record { msg = m; log = h }))
  unfolding wait_transfer
  not_yet fuel m h e ne = rw (e, ==_false m.interrupts (m.len + 1) ne)

  pub ended :
      (fuel : ℕ) (m : Msg) (h : History)
      → m.interrupts ≡ m.len + 1
      → wait_transfer chip (suc fuel) (record { msg = m; log = h })
        ≡ some (record { msg = m; log = h })
  unfolding wait_transfer
  ended fuel m h e = elim (Bool-cases m.failed) [
    | inl c ↦ rw c
    | inr c ↦ rw (c, (==_iff m.interrupts (m.len + 1)).1 e)
  ]

  next_byte :
      (addr len i : ℕ) (b : ℕ → ℕ) (h : History)
      → Acks
      → i < len
      → i2c_interrupt_func chip (record { msg = writing addr len i b; log = h })
        ≡ record { msg = writing addr len (i + 1) b; log = resume chip (Op.send (b i) ∷ h) }
  unfolding i2c_interrupt_func write_interrupt
  next_byte addr len i b h acks l = rw (acks h, and_false (i == 0), lt→ltb i len l)

  last_byte :
      (addr len : ℕ) (b : ℕ → ℕ) (h : History)
      → Acks
      → i2c_interrupt_func chip (record { msg = writing addr len len b; log = h })
        ≡ record { msg = writing addr len (len + 1) b; log = stop chip 0xd0 h }
  unfolding i2c_interrupt_func write_interrupt
  last_byte addr len b h acks =
      rw (acks h, and_false (len == 0), le→ltb_false len len (omega arith))

  abbrev Sent : ℕ → ℕ → (ℕ → ℕ) → ℕ → ℕ → History → ℕ → Type 0
  Sent addr len b i n h fuel =
      (h' : History) × (wait_transfer chip fuel (record { msg = writing addr len i b; log = h })
        ≡ some (record { msg = writing addr len (len + 1) b; log = h' }))
      × (sent h' ≡ sent h ++ slice b i n)
      × Stopped 0xd0 h'

  -- From the interrupt at which place i of the buffer is due, with n bytes left.
  send_rest :
      (n fuel addr i : ℕ) (b : ℕ → ℕ) (h : History)
      → Acks
      → n + 2 ≤ fuel
      → Sent addr (i + n) b i n h fuel
  unfolding stop resume
  send_rest n zero addr i b h acks f = absurd (omega arith)
  send_rest zero (suc zero) addr i b h acks f = absurd (omega arith)
  send_rest zero (suc (suc fuel)) addr i b h acks f = rw (plus_zero i) (
    stop chip 0xd0 h,
    not_yet (suc fuel) (writing addr i i b) h refl (omega arith)
        ∙ ap (wait_transfer chip (suc fuel)) (last_byte addr i b h acks)
        ∙ ended fuel (writing addr i (i + 1) b) (stop chip 0xd0 h) refl,
    sym (append-nil (sent h)),
    refl,
  )
  send_rest (suc n) (suc fuel) addr i b h acks f =
      let (h', w, s, q) =
        send_rest n fuel addr (i + 1) b (resume chip (Op.send (b i) ∷ h)) acks (omega arith) in
      rw (plus_suc i n) (
        h',
        not_yet fuel (writing addr (i + 1 + n) i b) h refl (omega arith)
            ∙ ap (wait_transfer chip fuel) (next_byte addr (i + 1 + n) i b h acks (omega arith))
            ∙ w,
        s ∙ append_assoc (sent h) (b i ∷ []) (slice b (i + 1) n),
        q,
      )

  whole :
      (fuel addr len : ℕ) (b : ℕ → ℕ) (h : History)
      → Acks
      → len + 2 ≤ fuel
      → Sent addr len b 0 len h fuel
  whole fuel addr len b h acks f =
      subst (λ l. Sent addr l b 0 len h fuel) (omega arith) (send_rest len fuel addr 0 b h acks f)

  -- `do_master_tx`, where the devices acknowledge and the fuel is at least the length plus two, returns
  -- 0; the bus gets the address shifted left, then the bytes of the buffer in order, then the stop,
  -- and one interrupt comes for the address and one for each byte.
  pub do_master_tx_lem :
      (fuel : ℕ) (m : Msg) (h : History)
      → Acks
      → m.flags ≡ 0
      → m.len + 2 ≤ fuel
      → (h' : History) × (do_master_tx chip fuel m h
          ≡ some (record { msg = record m { interrupts = m.len + 1; failed = false }; log = h' }))
        × (sent h' ≡ sent h ++ (m.addr * 2 % 2 ^ 8) ∷ slice m.buf 0 m.len)
        × Stopped 0xd0 h'
  unfolding do_master_tx
  do_master_tx_lem fuel m h acks w f =
      let h₀ = start chip (m.addr * 2) 0xf0 h in
      let (h', r, s, q) = whole fuel m.addr m.len m.buf h₀ acks (omega arith) in
      rw w (h', r, s ∙ append_assoc (sent h) (m.addr * 2 % 2 ^ 8 ∷ []) (slice m.buf 0 m.len), q)
