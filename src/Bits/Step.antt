-- ===== src/Bits/Step.antt =====
-- Each native bit operation, split into its lowest binary digit and the digits above.
use Prim.Native.Nat.{bitwise, digits, differ, max, bit_xor-bitwise, bit_or-bitwise, bit_and-bitwise}
use mine_os.Prelude.{
  ℕ, zero, suc, min, ◌+◌, ◌*◌, ◌/◌, ◌%◌, ◌≤◌, ◌≡◌, refl, sym, ◌∙◌, arith, bit_and, bit_or, bit_xor,
}

-- `rest` is the operation with 0 on the left, and op the one on digits.
module _ (rest : ℕ → ℕ) (op : ℕ → ℕ → ℕ) where
  nothing_left : (fuel y : ℕ) → digits rest op fuel 0 y ≡ rest y
  nothing_left zero y = refl
  nothing_left (suc fuel) y = refl

  -- The amount of fuel does not matter, as long as the left operand is not larger.
  fuel_free : (k l x y : ℕ) → x ≤ k → x ≤ l → digits rest op l x y ≡ digits rest op k x y
  fuel_free k l zero y h g = nothing_left l y ∙ sym (nothing_left k y)
  fuel_free zero l (suc x) y h g = absurd (omega arith)
  fuel_free (suc k) zero (suc x) y h g = absurd (omega arith)
  fuel_free (suc k) (suc l) (suc x) y h g =
      rw (fuel_free k l (suc x / 2) (y / 2) (omega arith) (omega arith))

  -- `law` is the same equation for 0 on the left.
  split_digit :
      (x y : ℕ)
      → 2 * rest (y / 2) + op 0 (y % 2) ≡ rest y
      → 2 * bitwise rest op (x / 2) (y / 2) + op (x % 2) (y % 2) ≡ bitwise rest op x y
  split_digit zero y law = law
  split_digit (suc x) y law =
      omega (arith, fuel_free (suc x / 2) x (suc x / 2) (y / 2) (omega arith) (omega arith))

pub digit_and : (x y : ℕ) → 2 * bit_and (x / 2) (y / 2) + min (x % 2) (y % 2) ≡ bit_and x y
digit_and x y =
    rw (bit_and-bitwise x y, bit_and-bitwise (x / 2) (y / 2)) (split_digit _ min x y (omega arith))

pub digit_or : (x y : ℕ) → 2 * bit_or (x / 2) (y / 2) + max (x % 2) (y % 2) ≡ bit_or x y
digit_or x y =
    rw (bit_or-bitwise x y, bit_or-bitwise (x / 2) (y / 2)) (split_digit _ max x y (omega arith))

pub digit_xor : (x y : ℕ) → 2 * bit_xor (x / 2) (y / 2) + differ (x % 2) (y % 2) ≡ bit_xor x y
digit_xor x y =
    rw (bit_xor-bitwise x y, bit_xor-bitwise (x / 2) (y / 2))
      (split_digit _ differ x y (omega arith))
