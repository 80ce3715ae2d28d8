-- ===== src/Bits/Clear.antt =====
-- The complement ~x of a word of 32 bits, and the assignments `x &= ~m` and `x |= m`.
use mine_os.Prelude.{
  ℕ, ◌-◌, ◌^◌, ◌%◌, ◌<◌, ◌==◌, ◌≡◌, ◌∙◌, sym, ◌+◌, ◌*◌, ◌/◌, zero, suc, ap, bit_or, bit_and,
  bit_xor, true, false, ◌&&◌, not, arith, ltb, lt→ltb, ==_iff, refl, Bool-cases, inl, inr,
}
use native.Mathlib.Nat.{pow-suc}
use mine_os.Bits.Step.{digit_or}
use mine_os.Bits.{
  test_bit, test_bit-zero, bit_cong, test_bit-and, test_bit-or, test_bit-xor, test_bit-mask,
  xor_bit, bit_laws, eq_of_bits,
}

-- ~x on 32 bits.
abbrev pub complement : ℕ → ℕ
complement x = bit_xor 0xffff_ffff x

-- ~(1 << i) on 32 bits.
abbrev pub all_but : ℕ → ℕ
all_but i = complement (2 ^ i)

pub test_bit-complement : (x j : ℕ) → test_bit (complement x) j ≡ xor_bit (ltb j 32) (test_bit x j)
test_bit-complement x j = test_bit-xor j 0xffff_ffff x ∙ rw (test_bit-mask j 32)

pub test_bit-all_but : (i j : ℕ) → test_bit (all_but i) j ≡ xor_bit (ltb j 32) (j == i)
test_bit-all_but i j = simp (bit_laws, test_bit-mask j 32)

-- `status &= ~(1 << i)` clears the bit i alone.
pub cleared :
    (x i j : ℕ) → j < 32 → test_bit (bit_and x (all_but i)) j ≡ (test_bit x j && not (j == i))
cleared x i j h = simp (bit_laws, test_bit-mask j 32, lt→ltb j 32 h)

pub cleared_above : (x i j : ℕ) → test_bit x j ≡ false → test_bit (bit_and x (all_but i)) j ≡ false
cleared_above x i j h = simp (bit_laws, h)

-- The mask 2 ^ n - 1 truncates to n bits.
pub bit_and_mask : (x n : ℕ) → bit_and x (2 ^ n - 1) ≡ x % 2 ^ n
bit_and_mask x n = eq_of_bits _ _ (λ j. simp bit_laws (ground arith))

masked : (w k j : ℕ) → j < k → test_bit (bit_and w (2 ^ k - 1)) j ≡ test_bit w j
masked w k j h = simp (bit_laws, lt→ltb j k h) (ground arith)

-- Where the test of the low k bits finds none, they are clear, and conversely.
pub low_clear :
    (w k : ℕ) → (bit_and w (2 ^ k - 1) == 0) ≡ true → (j : ℕ) → j < k → test_bit w j ≡ false
low_clear w k e j h =
    sym (masked w k j h) ∙ bit_cong _ 0 j j ((==_iff _ 0).0 e) refl ∙ test_bit-zero j

pub clear_low :
    (w k : ℕ) → ((j : ℕ) → j < k → test_bit w j ≡ false) → (bit_and w (2 ^ k - 1) == 0) ≡ true
clear_low w k h = (==_iff _ 0).1 (
    eq_of_bits _ 0
      λ j. test_bit-and j w (2 ^ k - 1) ∙ rw (test_bit-mask j k) (bit j) ∙ sym (test_bit-zero j))
  where
    bit : (j : ℕ) → (test_bit w j && ltb j k) ≡ false
    bit j = elim (Bool-cases (ltb j k)) [
      | inl c ↦ rw (h j (ground arith))
      | inr c ↦ rw c (ground arith)
    ]

pub or_none : (q : ℕ) → bit_or q 0 ≡ q
or_none q = eq_of_bits _ _ (λ j. rw (test_bit-or j q 0, test_bit-zero j) (ground arith))

twice_half : (a : ℕ) → 2 * a / 2 ≡ a
twice_half a = omega arith

pub or_step : (a r : ℕ) → bit_or (2 * a) r ≡ 2 * bit_or a (r / 2) + r % 2
or_step a r = omega (arith, digit_or (2 * a) r, ap (λ (t : ℕ). bit_or t (r / 2)) (twice_half a))

shifted : (q k : ℕ) → q * 2 ^ suc k ≡ 2 * (q * 2 ^ k)
shifted q k = omega (arith, ap (λ (t : ℕ). q * t) (pow-suc 2 k))

-- Where the low k bits are clear, those of r take their place.
pub or_digits : (k q r : ℕ) → r < 2 ^ k → bit_or (q * 2 ^ k) r ≡ q * 2 ^ k + r
or_digits zero q r h = ap (λ (t : ℕ). bit_or (q * 1) t) (low r h) ∙ or_none (q * 1) ∙ (omega arith)
  where
    low : (r : ℕ) → r < 1 → r ≡ 0
    low r h = omega arith
or_digits (suc k) q r h =
    ap (λ (t : ℕ). bit_or t r) (shifted q k)
    ∙ or_step (q * 2 ^ k) r
    ∙ omega (arith, shifted q k, or_digits k q (r / 2) (omega (arith, pow-suc 2 k)))
