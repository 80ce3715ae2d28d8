-- ===== src/Dht11.antt =====
-- drivers/sensors/dht11/dht11.c: the one-wire hygrometer.
--
-- The state is what the master has done on the pin, the latest step first, and the line is a
-- function of it. A result of -1 is `none`, or `false` where nothing else is returned.
pub mod Frame
use mine_os.Prelude.{
  ℕ, zero, suc, ◌+◌, ◌*◌, ◌%◌, ◌^◌, Bool, true, false, not, Option, none, some, List, ◌∷◌, ◌==◌,
  if◌then◌else◌, bit_or,
}

pub data Op : Type 0 where
  data_cfg_as_output : Op
  data_cfg_as_input : Op
  data_set : ℕ → Op
  mdelay : ℕ → Op
  udelay : ℕ → Op

unfoldable pub dht11_init : List Op → List Op
dht11_init h = Op.mdelay 2000 ∷ Op.data_set 1 ∷ Op.data_cfg_as_output ∷ h

unfoldable pub dht11_start : List Op → List Op
dht11_start h = Op.data_cfg_as_input ∷ Op.mdelay 20 ∷ Op.data_set 0 ∷ h

abbrev pub is_val : Bool → Bool → Bool
is_val true b = b
is_val false b = not b

-- What the pin reads after the steps so far.
module _ (line : List Op → Bool) where
  unfoldable pub dht11_wait_ack : List Op → Bool × List Op
  dht11_wait_ack h = (line (Op.udelay 60 ∷ h), Op.udelay 60 ∷ h)

  -- The loop, with n rounds left.
  unfoldable pub dht11_wait_for_val : Bool → ℕ → List Op → Bool × List Op
  dht11_wait_for_val val zero h = (false, h)
  dht11_wait_for_val val (suc n) h =
      let rest = dht11_wait_for_val val n (Op.udelay 1 ∷ h) in
      if is_val val (line h) then (true, h) else rest

  -- The loop of dht11_recv_byte, with n bits to come.
  unfoldable pub recv_bits : ℕ → ℕ → List Op → Option ℕ × List Op
  recv_bits zero byte h = (some byte, h)
  recv_bits (suc n) byte h =
      let (high, h₁) = dht11_wait_for_val true 1000 h in
      let h₂ = Op.udelay 40 ∷ h₁ in
      let byte₁ = (if line h₂ then bit_or (2 * byte) 1 else 2 * byte) in
      let (low, h₃) = dht11_wait_for_val false 1000 h₂ in
      let rest = recv_bits n byte₁ h₃ in
      if high then (if low then rest else (none, h₃)) else (none, h₁)

  unfoldable pub dht11_recv_byte : List Op → Option ℕ × List Op
  dht11_recv_byte h = recv_bits 8 0 h

-- The result as an unsigned char, where -1 is 255.
abbrev pub unsigned_char : Option ℕ → ℕ
unsigned_char none = 255
unsigned_char (some n) = n % 2 ^ 8

abbrev pub checked : ℕ → ℕ → ℕ → ℕ → ℕ → List Op → Option (ℕ × ℕ) × List Op
checked hum_m hum_n temp_m temp_n check h =
    if hum_m + hum_n + temp_m + temp_n == check
    then (some (hum_m, temp_m), Op.mdelay 2000 ∷ h)
    else (none, h)

module _ (line : List Op → Bool) where
  -- The five bytes, and the pin set to 1 again.
  unfoldable pub read_frame : List Op → Option (ℕ × ℕ) × List Op
  read_frame h =
      let (hum_m, h₁) = dht11_recv_byte line h in
      let (hum_n, h₂) = dht11_recv_byte line h₁ in
      let (temp_m, h₃) = dht11_recv_byte line h₂ in
      let (temp_n, h₄) = dht11_recv_byte line h₃ in
      let (check, h₅) = dht11_recv_byte line h₄ in
      checked (unsigned_char hum_m) (unsigned_char hum_n) (unsigned_char temp_m)
        (unsigned_char temp_n) (unsigned_char check) (Op.data_set 1 ∷ Op.data_cfg_as_output ∷ h₅)

  -- The humidity and the temperature.
  unfoldable pub dht11_read : List Op → Option (ℕ × ℕ) × List Op
  dht11_read h =
      let (ack, h₁) = dht11_wait_ack line (dht11_start h) in
      let (high, h₂) = dht11_wait_for_val line true 1000 h₁ in
      let (low, h₃) = dht11_wait_for_val line false 1000 h₂ in
      let frame = read_frame h₃ in
      if ack then (none, h₁) else (if high then (if low then frame else (none, h₃)) else (none, h₂))
