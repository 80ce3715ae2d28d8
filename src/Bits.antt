-- ===== src/Bits.antt =====
-- Bits of a machine word, and the operations &, |, ^, ~, << and >> of C on unsigned words, read
-- bit by bit.
mod Step
pub mod Clear
use Step.{digit_and, digit_or, digit_xor}
use Prim.Native.Nat.{differ}
use native.Mathlib.Nat.{pow-suc, pow-succ', div-div-eq-div-mul, one-le-pow}
use native.Mathlib.Nat.{mod-eq-sub-div-mul, div-mul-le_self}
use mathlib.Core.Path.{ap₂}
use mine_os.Prelude.{
  ℕ, zero, suc, ◌+◌, ◌-◌, ◌*◌, ◌/◌, ◌%◌, ◌^◌, ◌≤◌, ◌<◌, bit_and, bit_or, bit_xor, ◌≡◌, refl, ap,
  ◌∙◌, sym, ◌≢◌, Bool, true, false, ◌&&◌, ◌||◌, not, arith, ltb, ◌==◌, if◌then◌else◌, Bool-cases,
  inl, inr, le→ltb_false, ==_false,
}

abbrev pub xor_bit : Bool → Bool → Bool
xor_bit true b = not b
xor_bit false b = b

-- Bit i of x.
abbrev pub test_bit : ℕ → ℕ → Bool
test_bit x zero = x % 2 == 1
test_bit x (suc i) = test_bit (x / 2) i

pub test_bit-zero : (i : ℕ) → test_bit 0 i ≡ false
test_bit-zero zero = refl
test_bit-zero (suc i) = test_bit-zero i

and_half : (a b : ℕ) → bit_and a b / 2 ≡ bit_and (a / 2) (b / 2)
and_half a b = omega (arith, digit_and a b)

or_half : (a b : ℕ) → bit_or a b / 2 ≡ bit_or (a / 2) (b / 2)
or_half a b = omega (arith, digit_or a b)

differ_digits : (x y : ℕ) → x < 2 → y < 2 → differ x y ≡ (if x == y then 0 else 1)
differ_digits zero zero hx hy = refl
differ_digits zero (suc zero) hx hy = refl
differ_digits zero (suc (suc y)) hx hy = absurd (omega arith)
differ_digits (suc zero) zero hx hy = refl
differ_digits (suc zero) (suc zero) hx hy = refl
differ_digits (suc zero) (suc (suc y)) hx hy = absurd (omega arith)
differ_digits (suc (suc x)) y hx hy = absurd (omega arith)

xor_half : (a b : ℕ) → bit_xor a b / 2 ≡ bit_xor (a / 2) (b / 2)
xor_half a b = ground (arith, digit_xor a b, differ_digits (a % 2) (b % 2))

pub test_bit-and : (i a b : ℕ) → test_bit (bit_and a b) i ≡ (test_bit a i && test_bit b i)
test_bit-and zero a b = ground (arith, digit_and a b)
test_bit-and (suc i) a b = rw (and_half a b) (test_bit-and i (a / 2) (b / 2))

pub test_bit-or : (i a b : ℕ) → test_bit (bit_or a b) i ≡ (test_bit a i || test_bit b i)
test_bit-or zero a b = ground (arith, digit_or a b)
test_bit-or (suc i) a b = rw (or_half a b) (test_bit-or i (a / 2) (b / 2))

pub test_bit-xor : (i a b : ℕ) → test_bit (bit_xor a b) i ≡ xor_bit (test_bit a i) (test_bit b i)
test_bit-xor zero a b = ground (arith, digit_xor a b, differ_digits (a % 2) (b % 2))
test_bit-xor (suc i) a b = rw (xor_half a b) (test_bit-xor i (a / 2) (b / 2))

shift_once : (x k : ℕ) → x / 2 ^ suc k ≡ x / 2 / 2 ^ k
shift_once x k = rw (pow-succ', ← div-div-eq-div-mul)

half-mul-pow : (x k : ℕ) → x * 2 ^ suc k / 2 ≡ x * 2 ^ k
half-mul-pow x k = omega (arith, ap (λ (t : ℕ). x * t) (pow-suc 2 k))

pub bit_cong : (x y i j : ℕ) → x ≡ y → i ≡ j → test_bit x i ≡ test_bit y j
bit_cong x y i j p q = ap₂ test_bit p q

shl_zero : (i x : ℕ) → test_bit (x * 1) i ≡ (if ltb i 0 then false else test_bit x (i - 0))
shl_zero i x =
    rw (le→ltb_false i 0 (omega arith)) (bit_cong (x * 1) x i (i - 0) (omega arith) (omega arith))

-- x << k
pub test_bit-shl :
    (i k x : ℕ) → test_bit (x * 2 ^ k) i ≡ (if ltb i k then false else test_bit x (i - k))
test_bit-shl i zero x = shl_zero i x
test_bit-shl zero (suc k) x = ground (arith, ap (λ (t : ℕ). x * t) (pow-suc 2 k))
test_bit-shl (suc i) (suc k) x = rw (half-mul-pow x k) (
    rw (test_bit-shl i k x)
      (ground (arith, bit_cong x x (i - k) (suc i - suc k) refl (omega arith))))

-- x >> k
pub test_bit-shr : (k i x : ℕ) → test_bit (x / 2 ^ k) i ≡ test_bit x (k + i)
test_bit-shr zero i x = bit_cong (x / 1) x i (0 + i) (omega arith) (omega arith)
test_bit-shr (suc k) i x =
    bit_cong _ _ i i (shift_once x k) refl
    ∙ test_bit-shr k i (x / 2)
    ∙ bit_cong x x (suc (k + i)) (suc k + i) refl (omega arith)

-- A word below 2 ^ w has no bit from w on.
pub test_bit_above : (i w x : ℕ) → x < 2 ^ w → w ≤ i → test_bit x i ≡ false
test_bit_above i zero x h k = bit_cong x 0 i i (omega arith) refl ∙ test_bit-zero i
test_bit_above zero (suc w) x h k = absurd (omega arith)
test_bit_above (suc i) (suc w) x h k =
    test_bit_above i w (x / 2) (omega (arith, pow-suc 2 w)) (omega arith)

-- With q the quotient by 2 ^ (w + 1), which is that of x / 2 by 2 ^ w.
quotient : (x w : ℕ) → x / 2 ^ suc w * 2 ^ suc w ≡ 2 * (x / 2 / 2 ^ w * 2 ^ w)
quotient x w = omega (
  arith,
  ap (λ (t : ℕ). x / 2 ^ suc w * t) (pow-suc 2 w),
  ap (λ (t : ℕ). t * 2 ^ w) (shift_once x w),
)

mod_half : (x w : ℕ) → x % 2 ^ suc w / 2 ≡ x / 2 % 2 ^ w
mod_half x w = omega (
  arith,
  quotient x w,
  mod-eq-sub-div-mul x (2 ^ suc w),
  mod-eq-sub-div-mul (x / 2) (2 ^ w),
  div-mul-le_self x (2 ^ suc w),
  div-mul-le_self (x / 2) (2 ^ w),
)

mod_low : (x w : ℕ) → x % 2 ^ suc w % 2 ≡ x % 2
mod_low x w = omega (
  arith,
  quotient x w,
  mod-eq-sub-div-mul x (2 ^ suc w),
  mod-eq-sub-div-mul (x / 2) (2 ^ w),
  div-mul-le_self x (2 ^ suc w),
  div-mul-le_self (x / 2) (2 ^ w),
)

-- Truncation to w bits.
pub test_bit-mod : (i w x : ℕ) → test_bit (x % 2 ^ w) i ≡ (ltb i w && test_bit x i)
test_bit-mod i zero x =
    bit_cong (x % 1) 0 i i (omega arith) refl
    ∙ test_bit-zero i
    ∙ rw (le→ltb_false i 0 (omega arith))
test_bit-mod zero (suc w) x = ground (arith, mod_low x w)
test_bit-mod (suc i) (suc w) x = rw (mod_half x w) (rw (test_bit-mod i w (x / 2)) (ground arith))

-- 2 ^ n - 1 has the bits below n.
pub test_bit-mask : (i n : ℕ) → test_bit (2 ^ n - 1) i ≡ ltb i n
test_bit-mask i zero = test_bit-zero i ∙ sym (le→ltb_false i 0 (omega arith))
test_bit-mask zero (suc n) = ground (arith, pow-suc 2 n, one-le-pow n 2)
test_bit-mask (suc i) (suc n) =
    bit_cong ((2 ^ suc n - 1) / 2) (2 ^ n - 1) i i (omega (arith, pow-suc 2 n, one-le-pow n 2)) refl
    ∙ test_bit-mask i n
    ∙ (ground arith)

-- 1 << n has the one bit n.
pub test_bit-pow : (i n : ℕ) → test_bit (2 ^ n) i ≡ (i == n)
test_bit-pow zero zero = refl
test_bit-pow (suc i) zero = test_bit-zero i ∙ (ground arith)
test_bit-pow zero (suc n) = ground (arith, pow-suc 2 n)
test_bit-pow (suc i) (suc n) =
    bit_cong (2 ^ suc n / 2) (2 ^ n) i i (omega (arith, pow-suc 2 n)) refl
    ∙ test_bit-pow i n
    ∙ (ground arith)

same_bits : (k x y : ℕ) → x ≤ k → y ≤ k → ((i : ℕ) → test_bit x i ≡ test_bit y i) → x ≡ y
same_bits zero x y hx hy h = omega arith
same_bits (suc k) x y hx hy h =
    ground (arith, h 0, same_bits k (x / 2) (y / 2) (omega arith) (omega arith) (λ i. h (suc i)))

-- A number is its bits.
pub eq_of_bits : (x y : ℕ) → ((i : ℕ) → test_bit x i ≡ test_bit y i) → x ≡ y
eq_of_bits x y h = same_bits (x + y) x y (omega arith) (omega arith) h

-- The test `x & (1 << i)`.
pub bit_and_pow : (x i : ℕ) → (bit_and x (2 ^ i) == 0) ≡ not (test_bit x i)
bit_and_pow x i = elim (Bool-cases (test_bit x i)) [
  | inl e ↦ rw e (
      ==_false (bit_and x (2 ^ i)) 0
        (λ z. true_ne_false (sym e ∙ hit e ∙ ap (λ t. test_bit t i) z ∙ test_bit-zero i)))
  | inr e ↦ rw e (ap (λ t. t == 0) (eq_of_bits (bit_and x (2 ^ i)) 0 (λ j. miss e j)))
]
  where
    true_ne_false : true ≡ false → ⊥
    true_ne_false h = cc

    hit : test_bit x i ≡ true → test_bit x i ≡ test_bit (bit_and x (2 ^ i)) i
    hit e = ground (arith, test_bit-and i x (2 ^ i), test_bit-pow i i)

    miss : test_bit x i ≡ false → (j : ℕ) → test_bit (bit_and x (2 ^ i)) j ≡ test_bit 0 j
    miss e j =
        ground (
          arith,
          test_bit-and j x (2 ^ i),
          test_bit-pow j i,
          test_bit-zero j,
          bit_cong x x i j refl,
        )

-- The bits of each operation, for simp.
pub ruleset bit_laws = (
  test_bit-and, test_bit-or, test_bit-xor, test_bit-shl, test_bit-shr, test_bit-mod, test_bit-mask,
  test_bit-pow, test_bit-zero,
)
