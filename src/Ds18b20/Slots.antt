-- ===== src/Ds18b20/Slots.antt =====
-- drivers/sensors/ds18b20/ds18b20.c: bytes on the wire.
use mine_os.Prelude.{
  ℕ, zero, suc, ◌+◌, ◌-◌, ◌*◌, ◌/◌, ◌%◌, ◌^◌, ◌<◌, ◌≡◌, ◌∙◌, refl, ap, Bool, true, false, not, ◌&&◌,
  ◌||◌, ◌==◌, if◌then◌else◌, arith, bit_and, bit_or, Bool-cases, inl, inr, List, ◌∷◌, ltb, leb,
  ==_iff,
}
use mine_os.Bits.{test_bit, test_bit-or, test_bit-pow, test_bit-zero}
use mine_os.Ds18b20.{
  Op, ds18b20_write_bit, write_bits, ds18b20_write_byte, ds18b20_read_bit, read_byte_bits,
  ds18b20_read_byte,
}
use mine_os.Ds18b20.Temperature.{mask_test}

-- The pin where the master samples it, in a slot that begins after h.
abbrev pub sampled : (List Op → Bool) → List Op → Bool
sampled line h = line (Op.udelay 10 ∷ Op.data_release ∷ Op.set_val_for_time 0 2 ∷ h)

-- What the master has done after n more slots of reading.
abbrev pub slots : ℕ → List Op → List Op
slots zero h = h
slots (suc n) h =
    slots n (Op.udelay 50 ∷ Op.udelay 10 ∷ Op.data_release ∷ Op.set_val_for_time 0 2 ∷ h)

module _ (line : List Op → Bool) where
  read_byte_bits_state :
      (n i byte : ℕ) (h : List Op) → (read_byte_bits line n i byte h).1 ≡ slots n h
  unfolding read_byte_bits ds18b20_read_bit
  read_byte_bits_state zero i byte h = refl
  read_byte_bits_state (suc n) i byte h = read_byte_bits_state n (i + 1) _ _

  gained :
      (b : Bool) (byte i q : ℕ)
      → test_bit (if b then bit_or byte (2 ^ i) else byte) q ≡ (test_bit byte q || (b && (q == i)))
  gained true byte i q =
      test_bit-or q byte (2 ^ i) ∙ ap (λ x. test_bit byte q || x) (test_bit-pow q i)
  gained false byte i q = ground arith

  read_byte_bits_lem :
      (n i byte q : ℕ) (h : List Op)
      → test_bit (read_byte_bits line n i byte h).0 q
        ≡ (test_bit byte q || (leb i q && ltb q (i + n) && sampled line (slots (q - i) h)))
  unfolding read_byte_bits ds18b20_read_bit
  read_byte_bits_lem zero i byte q h = ground arith
  read_byte_bits_lem (suc n) i byte q h =
      read_byte_bits_lem n (i + 1) _ q _
      ∙ rw (gained (sampled line h) byte i q) (elim (Bool-cases (q == i)) [
        | inl e ↦
            let at : q ≡ i = (==_iff q i).0 e in
            let first : q - i ≡ 0 = omega (arith, at) in rw (e, first) (ground (arith, at))
        | inr e ↦ elim (Bool-cases (leb i q)) [
          | inl c ↦
              let later : q - i ≡ suc (q - (i + 1)) = ground arith in
              rw (e, c, later) (ground arith)
          | inr c ↦ rw (e, c) (ground arith)
        ]
      ])

  -- A byte is read in eight slots, its lowest bit first.
  pub ds18b20_read_byte_lem :
      (h : List Op)
      → ((ds18b20_read_byte line h).1 ≡ slots 8 h)
        × ((q : ℕ)
            → test_bit (ds18b20_read_byte line h).0 q ≡ (ltb q 8 && sampled line (slots q h)))
  unfolding ds18b20_read_byte
  ds18b20_read_byte_lem h = (
    read_byte_bits_state 8 0 0 h,
    λ q. read_byte_bits_lem 8 0 0 q h ∙ rw (test_bit-zero q) (ground arith),
  )

-- The number in the last n slots of writing: a low of less than 15 microseconds is a 1, and the
-- highest bit comes last.
abbrev pub received : ℕ → List Op → ℕ
received zero h = 0
received (suc n) (Op.udelay u ∷ Op.data_release ∷ Op.set_val_for_time v us ∷ h) =
    (if ltb us 15 then 2 ^ n else 0) + received n h
received (suc n) h = 0

-- The bits below n of a byte, written.
written : ℕ → ℕ → List Op → List Op
written zero byte h = h
written (suc n) byte h = ds18b20_write_bit (bit_and byte (2 ^ n)) (written n byte h)

write_bits-written :
    (n i byte : ℕ) (h : List Op) → write_bits n i byte (written i byte h) ≡ written (i + n) byte h
unfolding write_bits written
write_bits-written zero i byte h = ap (λ x. written x byte h) {x = i} {y = i + 0} (omega arith)
write_bits-written (suc n) i byte h =
    ap (write_bits n (i + 1) byte)
      (ap (λ x. written x byte h) {x = suc i} {y = i + 1} (omega arith))
    ∙ write_bits-written n (i + 1) byte h
    ∙ ap (λ x. written x byte h) {x = i + 1 + n} {y = i + suc n} (omega arith)

received_step :
    (n byte : ℕ) (h : List Op)
    → received (suc n) (written (suc n) byte h)
      ≡ byte / 2 ^ n % 2 * 2 ^ n + received n (written n byte h)
unfolding written ds18b20_write_bit
received_step n byte h = rw (mask_test byte n) (pick (byte / 2 ^ n % 2) (omega arith))
  where
    pick :
        (r : ℕ)
        → r < 2
        → received (suc n) (
            if not (r == 1)
            then Op.udelay 2 ∷ Op.data_release ∷ Op.set_val_for_time 0 60 ∷ written n byte h
            else Op.udelay 60 ∷ Op.data_release ∷ Op.set_val_for_time 0 2 ∷ written n byte h)
          ≡ r * 2 ^ n + received n (written n byte h)
    pick zero l = omega arith
    pick (suc zero) l = omega arith
    pick (suc (suc r)) l = absurd (omega arith)

-- A thermometer that takes a low of less than 15 microseconds as a 1, and a longer one as a 0,
-- receives the byte that is written.
ds18b20_write_byte_roundtrip :
    (byte : ℕ) (h : List Op) → byte < 256 → received 8 (ds18b20_write_byte byte h) ≡ byte
unfolding ds18b20_write_byte write_bits written
ds18b20_write_byte_roundtrip byte h l =
    ap (received 8) (write_bits-written 8 0 byte h)
    ∙ received_step 7 byte h
    ∙ omega (
      arith,
      received_step 6 byte h,
      received_step 5 byte h,
      received_step 4 byte h,
      received_step 3 byte h,
      received_step 2 byte h,
      received_step 1 byte h,
      received_step 0 byte h,
    )
