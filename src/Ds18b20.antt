-- ===== src/Ds18b20.antt =====
-- drivers/sensors/ds18b20/ds18b20.c: the one-wire thermometer.
--
-- The state is what the master has done on the pin, the latest step first, and the line is a
-- function of it. A result of -1 is `none`, or `false` where nothing else is returned.
pub mod Slots
pub mod Temperature
pub mod Errors
use mine_os.Prelude.{
  ℕ, zero, suc, ◌+◌, ◌-◌, ◌*◌, ◌^◌, Bool, true, false, not, Option, none, some, List, [], ◌∷◌, ◌==◌,
  if◌then◌else◌, bit_and, bit_or, get_or,
}
use mine_os.Prelude.Int.{ℤ, pos, sub_ℕ}

-- Output of a value and a delay, input, and a delay, in microseconds.
pub data Op : Type 0 where
  set_val_for_time : ℕ → ℕ → Op
  data_release : Op
  udelay : ℕ → Op

abbrev pub read_rom_cmd : ℕ
read_rom_cmd = 0x33

abbrev pub skip_rom_cmd : ℕ
skip_rom_cmd = 0xcc

abbrev pub convert_temperature : ℕ
convert_temperature = 0x44

abbrev pub read_scratchpad : ℕ
read_scratchpad = 0xbe

unfoldable pub ds18b20_write_bit : ℕ → List Op → List Op
ds18b20_write_bit val h =
    if val == 0
    then Op.udelay 2 ∷ Op.data_release ∷ Op.set_val_for_time 0 60 ∷ h
    else Op.udelay 60 ∷ Op.data_release ∷ Op.set_val_for_time 0 2 ∷ h

-- The loop of ds18b20_write_byte: the n bits from i on.
unfoldable pub write_bits : ℕ → ℕ → ℕ → List Op → List Op
write_bits zero i byte h = h
write_bits (suc n) i byte h = write_bits n (i + 1) byte (ds18b20_write_bit (bit_and byte (2 ^ i)) h)

unfoldable pub ds18b20_write_byte : ℕ → List Op → List Op
ds18b20_write_byte byte h = write_bits 8 0 byte h

-- What the pin reads after the steps so far.
module _ (line : List Op → Bool) where
  -- `false` is 0, the answer of a thermometer.
  unfoldable pub ds18b20_initialization : List Op → Bool × List Op
  ds18b20_initialization h =
      let h₁ = Op.udelay 80 ∷ Op.data_release ∷ Op.set_val_for_time 0 500 ∷ h in
      (line h₁, Op.udelay 250 ∷ h₁)

  unfoldable pub ds18b20_read_bit : List Op → Bool × List Op
  ds18b20_read_bit h =
      let h₁ = Op.udelay 10 ∷ Op.data_release ∷ Op.set_val_for_time 0 2 ∷ h in
      (line h₁, Op.udelay 50 ∷ h₁)

  -- The loop of ds18b20_read_byte: the n bits from i on.
  unfoldable pub read_byte_bits : ℕ → ℕ → ℕ → List Op → ℕ × List Op
  read_byte_bits zero i byte h = (byte, h)
  read_byte_bits (suc n) i byte h =
      let (b, h₁) = ds18b20_read_bit h in
      read_byte_bits n (i + 1) (if b then bit_or byte (2 ^ i) else byte) h₁

  unfoldable pub ds18b20_read_byte : List Op → ℕ × List Op
  ds18b20_read_byte h = read_byte_bits 8 0 0 h

  -- The loops that fill rom and ram.
  unfoldable pub read_bytes : ℕ → List Op → List ℕ × List Op
  read_bytes zero h = ([], h)
  read_bytes (suc n) h =
      let (byte, h₁) = ds18b20_read_byte h in let (rest, h₂) = read_bytes n h₁ in (byte ∷ rest, h₂)

  unfoldable pub ds18b20_read_rom : List Op → Option (List ℕ) × List Op
  ds18b20_read_rom h =
      let (val, h₁) = ds18b20_initialization h in
      let (rom, h₂) = read_bytes 8 (ds18b20_write_byte read_rom_cmd h₁) in
      if val then (none, h₁) else (some rom, h₂)

  -- The loop, with n rounds left.
  unfoldable pub ds18b20_wait_when_processing : ℕ → List Op → Bool × List Op
  ds18b20_wait_when_processing zero h = (false, h)
  ds18b20_wait_when_processing (suc n) h =
      let (b, h₁) = ds18b20_read_bit h in
      let rest = ds18b20_wait_when_processing n (Op.udelay 1 ∷ h₁) in if b then (true, h₁) else rest

  unfoldable pub ds18b20_start_convert : List Op → Bool × List Op
  ds18b20_start_convert h =
      let (val, h₁) = ds18b20_initialization h in
      let h₂ = ds18b20_write_byte convert_temperature (ds18b20_write_byte skip_rom_cmd h₁) in
      if val then (false, h₁) else ds18b20_wait_when_processing 1000000 h₂

  unfoldable pub ds18b20_read_ram : List Op → Option (List ℕ) × List Op
  ds18b20_read_ram h =
      let (val, h₁) = ds18b20_initialization h in
      let h₂ = ds18b20_write_byte read_scratchpad (ds18b20_write_byte skip_rom_cmd h₁) in
      let (ram, h₃) = read_bytes 9 h₂ in if val then (none, h₁) else (some ram, h₃)

-- The value of a comparison in C.
abbrev pub truth : Bool → ℕ
truth b = if b then 1 else 0

-- The precision: == binds more tightly than &.
unfoldable pub first_bit : ℕ → ℕ
first_bit config =
    if not (bit_and config (truth (3 * 2 ^ 5 == 0)) == 0)
    then 3
    else (if not (bit_and config (truth (3 * 2 ^ 5 == 1 * 2 ^ 5)) == 0)
        then 2
        else (if not (bit_and config (truth (3 * 2 ^ 5 == 2 * 2 ^ 5)) == 0) then 1 else 0))

-- The loops over val: the n bits of a byte from i on, where bit 0 is worth 2 ^ w sixteenths.
unfoldable pub add_bits : ℕ → ℕ → ℕ → ℕ → ℕ → ℕ
add_bits zero i w byte sum = sum
add_bits (suc n) i w byte sum =
    add_bits n (i + 1) w byte (if bit_and byte (2 ^ i) == 0 then sum else sum + 2 ^ (w + i))

-- The temperature of a scratchpad in sixteenths of a degree, which are exact in a double.
unfoldable pub temperature_of : ℕ → ℕ → ℕ → ℤ
temperature_of low high config =
    let i = first_bit config in
    let sum = add_bits 3 0 8 high (add_bits (8 - i) i 0 low 0) in
    if bit_and high (2 ^ 3) == 0 then pos sum else sub_ℕ 0 sum

module _ (line : List Op → Bool) where
  unfoldable pub ds18b20_read_temperature : List Op → Option ℤ × List Op
  ds18b20_read_temperature h =
      let (ok, h₁) = ds18b20_start_convert line h in
      let (result, h₂) = ds18b20_read_ram line h₁ in
      if ok
      then elim result [
        | none ↦ (none, h₂)
        | some ram ↦ (some (temperature_of (get_or ram 0 0) (get_or ram 1 0) (get_or ram 4 0)), h₂)
      ]
      else (none, h₁)
