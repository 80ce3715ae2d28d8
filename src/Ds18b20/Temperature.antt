-- ===== src/Ds18b20/Temperature.antt =====
-- drivers/sensors/ds18b20/ds18b20.c: what the bytes of the scratchpad are read as.
use mine_os.Prelude.{
  ℕ, zero, suc, ◌+◌, ◌-◌, ◌*◌, ◌/◌, ◌%◌, ◌^◌, ◌<◌, ◌≤◌, ◌≡◌, ◌∙◌, refl, sym, ap, not, ◌==◌,
  if◌then◌else◌, arith, bit_and, Bool-cases, inl, inr,
}
use mine_os.Bits.{test_bit-shr, bit_and_pow, bit_cong}
use mine_os.Bits.Clear.{bit_and_mask}
use mine_os.Prelude.Int.{pos, sub_ℕ}
use mine_os.Ds18b20.{first_bit, add_bits, temperature_of}

-- The test of bit i, by division.
pub mask_test : (x i : ℕ) → (bit_and x (2 ^ i) == 0) ≡ not (x / 2 ^ i % 2 == 1)
mask_test x i =
    bit_and_pow x i ∙ ap not (bit_cong x x i (i + 0) refl (omega arith) ∙ sym (test_bit-shr i 0 x))

pick : (r v s : ℕ) → r < 2 → (if not (r == 1) then s else s + v) ≡ s + r * v
pick zero v s h = omega arith
pick (suc zero) v s h = omega arith
pick (suc (suc r)) v s h = absurd (omega arith)

add_bits_step :
    (n i w byte sum : ℕ)
    → add_bits (suc n) i w byte sum
      ≡ add_bits n (i + 1) w byte (sum + byte / 2 ^ i % 2 * 2 ^ (w + i))
unfolding add_bits
add_bits_step n i w byte sum =
    ap (add_bits n (i + 1) w byte)
      (rw (mask_test byte i) (pick (byte / 2 ^ i % 2) (2 ^ (w + i)) sum (omega arith)))

add_bits_none : (i w byte sum : ℕ) → add_bits 0 i w byte sum ≡ sum
unfolding add_bits
add_bits_none i w byte sum = refl

low_byte : (byte : ℕ) → byte < 256 → add_bits 8 0 0 byte 0 ≡ byte
low_byte byte h =
    add_bits_step 7 0 0 byte _
    ∙ add_bits_step 6 1 0 byte _
    ∙ add_bits_step 5 2 0 byte _
    ∙ add_bits_step 4 3 0 byte _
    ∙ add_bits_step 3 4 0 byte _
    ∙ add_bits_step 2 5 0 byte _
    ∙ add_bits_step 1 6 0 byte _
    ∙ add_bits_step 0 7 0 byte _
    ∙ add_bits_none 8 0 byte _
    ∙ omega arith

high_byte : (byte sum : ℕ) → add_bits 3 0 8 byte sum ≡ sum + 256 * (byte % 8)
high_byte byte sum =
    add_bits_step 2 0 8 byte sum
    ∙ add_bits_step 1 1 8 byte _
    ∙ add_bits_step 0 2 8 byte _
    ∙ add_bits_none 3 8 byte _
    ∙ omega arith

-- The precision is never found to be less than 12 bits.
first_bit_lem : (config : ℕ) → first_bit config ≡ 0
unfolding first_bit
first_bit_lem config = rw (none_of config) refl
  where
    none_of : (x : ℕ) → bit_and x 0 ≡ 0
    none_of x = bit_and_mask x 0 ∙ omega arith

temperature_sum :
    (low high config : ℕ)
    → low < 256
    → temperature_of low high config ≡ (
        if high / 8 % 2 == 1
        then sub_ℕ 0 (low + 256 * (high % 8))
        else pos (low + 256 * (high % 8)))
unfolding temperature_of
temperature_sum low high config h =
    rw (first_bit_lem config, low_byte low h, high_byte high low, mask_test high 3)
      (elim (Bool-cases (high / 8 % 2 == 1)) [ inl e ↦ rw e refl | inr e ↦ rw e refl ])

-- The thermometer sends a temperature in sixteenths of a degree, in two's complement of 16 bits.
-- One that is not negative is read exactly, whatever the precision that the configuration byte
-- says. One of -t, for t of 1 to 2048, is read as t - 2048.
pub temperature_of_lem :
    (t config : ℕ)
    → (t < 2 ^ 11 → temperature_of (t % 256) (t / 256) config ≡ pos t)
      × (0 < t
          → t ≤ 2 ^ 11
          → temperature_of ((2 ^ 16 - t) % 256) ((2 ^ 16 - t) / 256) config ≡ sub_ℕ 0 (2 ^ 11 - t))
temperature_of_lem t config = (
  λ h. temperature_sum (t % 256) (t / 256) config (omega arith) ∙ ground arith,
  λ z h.
      temperature_sum ((2 ^ 16 - t) % 256) ((2 ^ 16 - t) / 256) config (omega arith) ∙ ground arith,
)
