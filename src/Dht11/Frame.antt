-- ===== src/Dht11/Frame.antt =====
-- drivers/sensors/dht11/dht11.c: what is read from a sensor that keeps to the protocol.
use native.Mathlib.Nat.{mul-le-mul_right, pow-suc}
use mine_os.Prelude.{
  ℕ, zero, suc, ◌+◌, ◌*◌, ◌^◌, ◌≡◌, ◌∙◌, refl, sym, ap, Bool, true, false, none, some, List, [],
  ◌∷◌, ◌==◌, if◌then◌else◌, bit_or, arith, length, ◌≤◌, Bool-cases, inl, inr, subst,
}
use mine_os.Bits.Clear.{or_none, or_step}
use mine_os.Dht11.{
  Op, is_val, dht11_start, dht11_wait_ack, dht11_wait_for_val, recv_bits, dht11_recv_byte,
  unsigned_char, checked, read_frame, dht11_read,
}

-- The line takes the value after fewer than n microseconds of waiting.
pub data Turns (line : List Op → Bool) (val : Bool) : ℕ → List Op → List Op → Type 0 where
  now : {n : ℕ} {h : List Op} → is_val val (line h) ≡ true → Turns line val (suc n) h h
  later :
      {n : ℕ} {h h' : List Op}
      → is_val val (line h) ≡ false
      → Turns line val n (Op.udelay 1 ∷ h) h'
      → Turns line val (suc n) h h'

-- The sensor sends a bit: the line rises, holds the bit after 40 microseconds, and falls.
pub data SendsBit (line : List Op → Bool) : Bool → List Op → List Op → Type 0 where
  pulse :
      {b : Bool} {h h₁ h₂ : List Op}
      → Turns line true 1000 h h₁
      → line (Op.udelay 40 ∷ h₁) ≡ b
      → Turns line false 1000 (Op.udelay 40 ∷ h₁) h₂
      → SendsBit line b h h₂

pub data Sends (line : List Op → Bool) : List Bool → List Op → List Op → Type 0 where
  done : {h : List Op} → Sends line [] h h
  bit :
      {b : Bool} {bs : List Bool} {h h₁ h₂ : List Op}
      → SendsBit line b h h₁
      → Sends line bs h₁ h₂
      → Sends line (b ∷ bs) h h₂

-- The number of a list of bits, the highest first, after the bits of `byte`.
abbrev pub number_of : ℕ → List Bool → ℕ
number_of byte [] = byte
number_of byte (b ∷ bs) = number_of (2 * byte + (if b then 1 else 0)) bs

wait-Turns :
    (line : List Op → Bool) (val : Bool) (n : ℕ) (h h' : List Op)
    → Turns line val n h h'
    → dht11_wait_for_val line val n h ≡ (true, h')
unfolding dht11_wait_for_val
wait-Turns line val zero h h' t = elim t [ ]
wait-Turns line val (suc n) h h' (Turns.now e) = rw e refl
wait-Turns line val (suc n) h h' (Turns.later e t) =
    rw e (wait-Turns line val n (Op.udelay 1 ∷ h) h' t)

shift_in :
    (b : Bool) (byte : ℕ)
    → (if b then bit_or (2 * byte) 1 else 2 * byte) ≡ 2 * byte + (if b then 1 else 0)
shift_in true byte = omega (arith, or_step byte 1, or_none byte)
shift_in false byte = omega arith

recv_bits_lem :
    (line : List Op → Bool) (bs : List Bool) (byte : ℕ) (h h' : List Op)
    → Sends line bs h h'
    → recv_bits line (length bs) byte h ≡ (some (number_of byte bs), h')
unfolding recv_bits
recv_bits_lem line [] byte h h' Sends.done = refl
recv_bits_lem line (b ∷ bs) byte h h' (Sends.bit (SendsBit.pulse {h₁ = h₁} {h₂ = h₂} r e f) s) =
    rw
      (
        wait-Turns line true 1000 h h₁ r,
        wait-Turns line false 1000 (Op.udelay 40 ∷ h₁) h₂ f,
        e,
        shift_in b byte,
      )
      (recv_bits_lem line bs (2 * byte + (if b then 1 else 0)) h₂ h' s)

number_bound : (byte : ℕ) (bs : List Bool) → suc (number_of byte bs) ≤ (byte + 1) * 2 ^ length bs
number_bound byte [] = omega arith
number_bound byte (b ∷ bs) =
    let next : ℕ = 2 * byte + (if b then 1 else 0) in
    let grow : (next + 1) * 2 ^ length bs ≤ (2 * byte + 2) * 2 ^ length bs =
      mul-le-mul_right (2 ^ length bs) (ground arith) in
    let e : (byte + 1) * 2 ^ suc (length bs) ≡ (2 * byte + 2) * 2 ^ length bs =
      ap (λ x. (byte + 1) * x) (pow-suc 2 (length bs)) ∙ grind arith in
    let ih : suc (number_of next bs) ≤ (next + 1) * 2 ^ length bs = number_bound next bs in
    subst (λ x. suc (number_of next bs) ≤ x) (sym e) (omega (arith, ih, grow))

-- The sensor sends a byte, its highest bit first.
pub record SendsByte (line : List Op → Bool) (byte : ℕ) (h h' : List Op) : Type 0 where
  pub bits : List Bool
  pub eight : length bits ≡ 8
  pub value : number_of 0 bits ≡ byte
  pub sends : Sends line bits h h'

recv_byte_lem :
    (line : List Op → Bool) (byte : ℕ) (h h' : List Op)
    → SendsByte line byte h h'
    → (dht11_recv_byte line h ≡ (some byte, h')) × (unsigned_char (some byte) ≡ byte)
unfolding dht11_recv_byte
recv_byte_lem line byte h h' s = (
  ap (λ n. recv_bits line n 0 h) (sym s.eight)
      ∙ recv_bits_lem line s.bits 0 h h' s.sends
      ∙ ap (λ b. (some b, h')) s.value,
  omega (arith, number_bound 0 s.bits, s.value, ap (λ n. 2 ^ n) s.eight),
)

-- The sensor answers the start and sends the five bytes.
pub record Answers (line : List Op → Bool) (h : List Op) (hum_m hum_n temp_m temp_n check : ℕ)
    : Type 0 where
  pub states : ℕ → List Op
  pub ack : line (Op.udelay 60 ∷ dht11_start h) ≡ false
  pub rises : Turns line true 1000 (Op.udelay 60 ∷ dht11_start h) (states 0)
  pub falls : Turns line false 1000 (states 0) (states 1)
  pub first : SendsByte line hum_m (states 1) (states 2)
  pub second : SendsByte line hum_n (states 2) (states 3)
  pub third : SendsByte line temp_m (states 3) (states 4)
  pub fourth : SendsByte line temp_n (states 4) (states 5)
  pub fifth : SendsByte line check (states 5) (states 6)

read_frame_lem :
    (line : List Op → Bool) (h : List Op) (a b c d e : ℕ) (s : Answers line h a b c d e)
    → read_frame line (s.states 1)
      ≡ checked a b c d e (Op.data_set 1 ∷ Op.data_cfg_as_output ∷ s.states 6)
unfolding read_frame
read_frame_lem line h a b c d e s =
    let r₁ = recv_byte_lem line a (s.states 1) (s.states 2) s.first in
    let r₂ = recv_byte_lem line b (s.states 2) (s.states 3) s.second in
    let r₃ = recv_byte_lem line c (s.states 3) (s.states 4) s.third in
    let r₄ = recv_byte_lem line d (s.states 4) (s.states 5) s.fourth in
    let r₅ = recv_byte_lem line e (s.states 5) (s.states 6) s.fifth in
    rw (r₁.0, r₂.0, r₃.0, r₄.0, r₅.0, r₁.1, r₂.1, r₃.1, r₄.1, r₅.1) refl

-- From a sensor that answers and sends five bytes, each bit as a pulse that is long for a 1,
-- dht11_read returns the first and the third byte where the first four add up to the fifth, and -1
-- where they do not.
pub dht11_read_lem :
    (line : List Op → Bool) (h : List Op) (hum_m hum_n temp_m temp_n check : ℕ)
    → Answers line h hum_m hum_n temp_m temp_n check
    → (dht11_read line h).0
      ≡ (if hum_m + hum_n + temp_m + temp_n == check then some (hum_m, temp_m) else none)
unfolding dht11_read dht11_wait_ack
dht11_read_lem line h a b c d e s =
    rw
      (
        s.ack,
        wait-Turns line true 1000 (Op.udelay 60 ∷ dht11_start h) (s.states 0) s.rises,
        wait-Turns line false 1000 (s.states 0) (s.states 1) s.falls,
        read_frame_lem line h a b c d e s,
      )
      (elim (Bool-cases (a + b + c + d == e)) [ inl x ↦ rw x refl | inr x ↦ rw x refl ])
