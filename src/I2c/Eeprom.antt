-- ===== src/I2c/Eeprom.antt =====
-- drivers/i2c/at24cxx.c: writing and reading the EEPROM over the bus.
use mathlib.Core.List.{append-nil, append_assoc}
use mine_os.Prelude.{
  ℕ, zero, suc, ◌+◌, ◌-◌, ◌%◌, ◌^◌, ◌<◌, ◌≤◌, ◌==◌, ◌≡◌, ◌∙◌, refl, sym, ap, subst, true, false,
  arith, if◌then◌else◌, Bool-cases, inl, inr, some, List, [], ◌∷◌, ◌++◌, length,
}
use mine_os.I2c.{
  History, Chip, Msg, XferResult, do_master, s3c2440_master_xfer, at24cxx_write, at24cxx_write_from,
  at24cxx_read, address_msg, data_msg, prepend,
}
use mine_os.I2c.Send.{sent, Acks, do_master_tx_lem}
use mine_os.I2c.Receive.{fill, do_master_rx_short}

-- What a write of the n bytes of d from place i on puts on the bus: for each byte a transfer to the
-- device 0x50, with the address of the byte and the byte.
abbrev pub page_writes : ℕ → (ℕ → ℕ) → ℕ → ℕ → List ℕ
page_writes addr d i zero = []
page_writes addr d i (suc n) =
    0xa0 ∷ addr % 2 ^ 8 ∷ d i ∷ page_writes ((addr + 1) % 2 ^ 32) d (i + 1) n

-- The message of one byte.
abbrev byte_msg : ℕ → ℕ → Msg
byte_msg addr v = record {
  addr = 0x50;
  flags = 0;
  len = 2;
  interrupts = 0;
  failed = false;
  buf = λ j. if j == 0 then addr % 2 ^ 8 else v;
}

module _ (chip : Chip) where
  one_message :
      (fuel : ℕ) (m m' : Msg) (h h' : History)
      → do_master chip fuel m h ≡ some (record { msg = m'; log = h' })
      → s3c2440_master_xfer chip fuel (m ∷ []) h
        ≡ some (record { msgs = m' ∷ []; failed = m'.failed; log = h' })
  unfolding s3c2440_master_xfer
  one_message fuel m m' h h' e =
      rw (s3c2440_master_xfer, e) (elim (Bool-cases m'.failed) [ inl c ↦ rw c | inr c ↦ rw c ])

  next_message :
      (fuel : ℕ) (m m' : Msg) (ms : List Msg) (h h' : History) (o : XferResult)
      → do_master chip fuel m h ≡ some (record { msg = m'; log = h' })
      → m'.failed ≡ false
      → s3c2440_master_xfer chip fuel ms h' ≡ some o
      → s3c2440_master_xfer chip fuel (m ∷ ms) h ≡ some (record o { msgs = m' ∷ o.msgs })
  unfolding s3c2440_master_xfer
  next_message fuel m m' ms h h' o e k r =
      rw (s3c2440_master_xfer, e)
        (subst
          (λ b.
            (if b
              then some (record { msgs = m' ∷ ms; failed = true; log = h' })
              else prepend m' (s3c2440_master_xfer chip fuel ms h'))
            ≡ some (record o { msgs = m' ∷ o.msgs }))
          (sym k) (ap (prepend m') r))

  one_byte :
      (fuel addr v : ℕ) (h : History)
      → Acks chip
      → 4 ≤ fuel
      → (m : Msg) × (h' : History) × (s3c2440_master_xfer chip fuel (byte_msg addr v ∷ []) h
          ≡ some (record { msgs = m ∷ []; failed = false; log = h' }))
        × (sent h' ≡ sent h ++ 0xa0 ∷ addr % 2 ^ 8 ∷ v ∷ [])
  unfolding do_master
  one_byte fuel addr v h acks f =
      let (h', r, s, q) = do_master_tx_lem chip fuel (byte_msg addr v) h acks refl f in
      (
        record (byte_msg addr v) { interrupts = 2 + 1; failed = false },
        h',
        one_message fuel (byte_msg addr v) _ h h' r,
        s,
      )

  write_from_lem :
      (n fuel addr i : ℕ) (d : ℕ → ℕ) (h : History)
      → Acks chip
      → 4 ≤ fuel
      → (h' : History) × (at24cxx_write_from chip fuel addr d i n h ≡ some (false, h'))
        × (sent h' ≡ sent h ++ page_writes addr d i n)
  unfolding at24cxx_write_from
  write_from_lem zero fuel addr i d h acks f = (h, refl, sym (append-nil (sent h)))
  write_from_lem (suc n) fuel addr i d h acks f =
      let (m, h₁, r₁, s₁) = one_byte fuel addr (d i) h acks f in
      let (h', r, s) = write_from_lem n fuel ((addr + 1) % 2 ^ 32) (i + 1) d h₁ acks f in
      (
        h',
        rw (at24cxx_write_from, r₁) r,
        s
            ∙ ap (λ t. t ++ page_writes ((addr + 1) % 2 ^ 32) d (i + 1) n) s₁
            ∙ append_assoc (sent h) (0xa0 ∷ addr % 2 ^ 8 ∷ d i ∷ []) _,
      )

  -- `at24cxx_write`, where the devices acknowledge and the fuel is at least 4, returns 0, and the
  -- bus gets for each byte, in order, the device's address, the address of the byte modulo 256, and
  -- the byte, the addresses counting up from `addr`.
  at24cxx_write_lem :
      (fuel addr len : ℕ) (d : ℕ → ℕ) (h : History)
      → Acks chip
      → 4 ≤ fuel
      → (h' : History) × (at24cxx_write chip fuel addr d len h ≡ some (false, h'))
        × (sent h' ≡ sent h ++ page_writes addr d 0 len)
  unfolding at24cxx_write
  at24cxx_write_lem fuel addr len d h acks f = write_from_lem len fuel addr 0 d h acks f

  -- `at24cxx_read` of at least one byte, where the devices acknowledge and the fuel is at least the
  -- length plus two, returns 0, having sent the address of the first byte, but the last place of
  -- the caller's buffer keeps what it held: one byte too few is read and stored.
  pub at24cxx_read_short :
      (fuel addr len : ℕ) (d : ℕ → ℕ) (h : History)
      → Acks chip
      → 0 < len
      → len + 2 ≤ fuel
      → (vs : List ℕ) × (a m : Msg) × (h' : History) × (at24cxx_read chip fuel addr d len h
          ≡ some (record { msgs = a ∷ m ∷ []; failed = false; log = h' }))
        × (m.buf ≡ fill d 0 vs)
        × (length vs + 1 ≡ len)
        × (m.buf (len - 1) ≡ d (len - 1))
        × (sent h' ≡ sent h ++ 0xa0 ∷ addr % 2 ^ 8 ∷ 0xa1 ∷ [])
  unfolding at24cxx_read do_master
  at24cxx_read_short fuel addr len d h acks l f =
      let (h₁, r₁, s₁, q₁) =
        do_master_tx_lem chip fuel (address_msg addr) h acks refl (omega arith) in
      let (vs, h', r, g, n, k, s, q) =
        do_master_rx_short chip fuel (data_msg d len) h₁ acks refl l f in
      (
        vs,
        record (address_msg addr) { interrupts = 1 + 1; failed = false },
        record (data_msg d len) { interrupts = len + 1; failed = false; buf = fill d 0 vs },
        h',
        next_message fuel (address_msg addr) _ _ h h₁ _ r₁ refl
            (one_message fuel (data_msg d len) _ h₁ h' r),
        refl,
        n,
        k (len - 1) (omega arith),
        s
            ∙ ap (λ t. t ++ 0xa1 ∷ []) (s₁ ∙ ap (λ (v : ℕ). sent h ++ 0xa0 ∷ v ∷ []) (omega arith))
            ∙ append_assoc (sent h) (0xa0 ∷ addr % 2 ^ 8 ∷ []) (0xa1 ∷ []),
      )
