-- ===== src/Tests/Sensors.antt =====
-- The theorems on the sensors of drivers/sensors/ds18b20 and drivers/sensors/dht11.
use mine_os.Prelude.{
  ℕ, zero, suc, ◌+◌, ◌-◌, ◌*◌, ◌/◌, ◌%◌, ◌^◌, ◌<◌, ◌≤◌, ◌≡◌, ◌∙◌, refl, ap, Bool, true, false, not,
  ◌&&◌, none, some, List, [], ◌∷◌, ◌==◌, if◌then◌else◌, arith, ltb, Bool-cases, inl, inr, subst,
}
use mine_os.Bits.{test_bit}
use mine_os.Prelude.Int.{pos, sub_ℕ}
use mine_os.Ds18b20
use mine_os.Ds18b20.{
  ds18b20_read_byte, ds18b20_write_byte, temperature_of, ds18b20_read_temperature,
}
use mine_os.Ds18b20.Slots.{slots, sampled, ds18b20_read_byte_lem}
use mine_os.Ds18b20.Temperature.{temperature_of_lem}
use mine_os.Dht11.{Op, dht11_start, dht11_read}
use mine_os.Dht11.Frame.{Turns, SendsBit, Sends, SendsByte, number_of, dht11_read_lem}

-- A line that is never pulled down.
abbrev high : List Ds18b20.Op → Bool
high h = true

ds18b20_read_byte_example :
    ((ds18b20_read_byte high []).1 ≡ slots 8 [])
    × ((q : ℕ) → test_bit (ds18b20_read_byte high []).0 q ≡ (ltb q 8 && sampled high (slots q [])))
ds18b20_read_byte_example = ds18b20_read_byte_lem high []

temperature_of_example :
    (160 < 2 ^ 11 → temperature_of (160 % 256) (160 / 256) 0x7f ≡ pos 160)
    × (0 < 160
        → 160 ≤ 2 ^ 11
        → temperature_of ((2 ^ 16 - 160) % 256) ((2 ^ 16 - 160) / 256) 0x7f
          ≡ sub_ℕ 0 (2 ^ 11 - 160))
temperature_of_example = temperature_of_lem 160 0x7f

-- A sensor that sends 45 % and 23 degrees.
abbrev message : ℕ → Bool
message k = (45 * 2 ^ 32 + 23 * 2 ^ 16 + 68) / 2 ^ (39 - k) % 2 == 1

-- The number of bits sampled so far.
abbrev count : List Op → ℕ
count [] = 0
count (Op.udelay d ∷ h) = if d == 40 then suc (count h) else count h
count (Op.mdelay d ∷ h) = count h
count (Op.data_set v ∷ h) = count h
count (Op.data_cfg_as_output ∷ h) = count h
count (Op.data_cfg_as_input ∷ h) = count h

abbrev sensor : List Op → Bool
sensor [] = false
sensor (Op.udelay d ∷ h) =
    if d == 1 then not (sensor h) else (if d == 40 then message (count h) else false)
sensor (Op.mdelay d ∷ h) = false
sensor (Op.data_set v ∷ h) = false
sensor (Op.data_cfg_as_output ∷ h) = false
sensor (Op.data_cfg_as_input ∷ h) = false

abbrev next_bit : List Op → List Op
next_bit h =
    if message (count h)
    then Op.udelay 1 ∷ Op.udelay 40 ∷ Op.udelay 1 ∷ h
    else Op.udelay 40 ∷ Op.udelay 1 ∷ h

sends_bit :
    (h : List Op)
    → sensor h ≡ false
    → SendsBit sensor (message (count h)) h (next_bit h)
      × (sensor (next_bit h) ≡ false)
      × (count (next_bit h) ≡ suc (count h))
sends_bit h low = elim (Bool-cases (message (count h))) [
  | inl e ↦ rw e (
    SendsBit.pulse (rises h low) e (Turns.later (rw e refl) (Turns.now (rw e refl))),
    rw e refl,
    refl,
  )
  | inr e ↦ rw e (SendsBit.pulse (rises h low) e (Turns.now (rw e refl)), rw e refl, refl)
]
  where
    rises : (h : List Op) → sensor h ≡ false → Turns sensor true 1000 h (Op.udelay 1 ∷ h)
    rises h low = Turns.later low (Turns.now (rw low refl))

abbrev bits_from : ℕ → ℕ → List Bool
bits_from zero c = []
bits_from (suc n) c = message c ∷ bits_from n (suc c)

abbrev after : ℕ → List Op → List Op
after zero h = h
after (suc n) h = after n (next_bit h)

sends :
    (n : ℕ) (h : List Op)
    → sensor h ≡ false
    → Sends sensor (bits_from n (count h)) h (after n h)
      × (sensor (after n h) ≡ false)
      × (count (after n h) ≡ n + count h)
sends zero h low = (Sends.done, low, omega arith)
sends (suc n) h low =
    let (b, l, c) = sends_bit h low in
    let (s, l', c') = sends n (next_bit h) l in
    (
      Sends.bit b
          (subst (λ x. Sends sensor (bits_from n x) (next_bit h) (after n (next_bit h))) c s),
      l',
      omega (arith, c, c'),
    )

abbrev answered : List Op
answered = Op.udelay 1 ∷ Op.udelay 1 ∷ Op.udelay 60 ∷ dht11_start []

sends_byte :
    (byte c : ℕ) (h : List Op)
    → sensor h ≡ false
    → count h ≡ c
    → number_of 0 (bits_from 8 c) ≡ byte
    → SendsByte sensor byte h (after 8 h)
sends_byte byte c h low at value = record {
  bits = bits_from 8 (count h);
  eight = refl;
  value = ap (λ x. number_of 0 (bits_from 8 x)) at ∙ value;
  sends = (sends 8 h low).0;
}

abbrev state : ℕ → List Op
state zero = Op.udelay 1 ∷ Op.udelay 60 ∷ dht11_start []
state (suc zero) = answered
state (suc (suc n)) = after 8 (state (suc n))

state_lem : (n : ℕ) → (sensor (state (suc n)) ≡ false) × (count (state (suc n)) ≡ n * 8)
unfolding dht11_start
state_lem zero = (refl, refl)
state_lem (suc n) =
    let (low, c) = state_lem n in
    let (s, l, d) = sends 8 (state (suc n)) low in (l, omega (arith, c, d))

dht11_read_example :
    (dht11_read sensor []).0 ≡ (if 45 + 0 + 23 + 0 == 68 then some (45, 23) else none)
unfolding dht11_start
dht11_read_example = dht11_read_lem sensor [] 45 0 23 0 68 (record {
  states = state;
  ack = refl;
  rises = Turns.later refl (Turns.now refl);
  falls = Turns.later refl (Turns.now refl);
  first = sends_byte 45 0 (state 1) (state_lem 0).0 (state_lem 0).1 refl;
  second = sends_byte 0 8 (state 2) (state_lem 1).0 (state_lem 1).1 refl;
  third = sends_byte 23 16 (state 3) (state_lem 2).0 (state_lem 2).1 refl;
  fourth = sends_byte 0 24 (state 4) (state_lem 3).0 (state_lem 3).1 refl;
  fifth = sends_byte 68 32 (state 5) (state_lem 4).0 (state_lem 4).1 refl;
})
