-- ===== src/Irq/Parent/Words.antt =====
-- kernel/irq.c: the words of EINTMASK and INTMSK as one line is masked or unmasked.
use mine_os.Prelude.{
  ℕ, ◌/◌, ◌^◌, ◌<◌, ◌≤◌, ◌==◌, ◌≡◌, ◌↔◌, true, arith, if◌then◌else◌, bit_and, bit_or,
}
use mine_os.Bits.{test_bit}
use mine_os.Bits.Clear.{all_but}
use mine_os.Irq.Parent.Groups.{
  Full, Above, low_test, high_test, group_set, group_clear, set_other, clear_other, Above-set,
  Above-clear, Full-more, Full-set, Full-clear, never-Full, other_parent,
}

-- EINTMASK is x and INTMSK is i: the parents 4 and 5 are masked exactly when all their lines are.
abbrev pub Parents : ℕ → ℕ → Type 0
Parents x i = Above x × ((test_bit i 4 ≡ true) ↔ Full 4 8 x) × ((test_bit i 5 ≡ true) ↔ Full 8 24 x)

pub low_set :
    (x i k : ℕ)
    → 4 ≤ k
    → k < 8
    → Parents x i
    → Parents
        (bit_or x (2 ^ k))
        (if bit_and (bit_or x (2 ^ k)) 0xf0 == 0xf0 then bit_or i (2 ^ 4) else i)
low_set x i k l h (a, u, v) = (
  Above-set x k (omega arith) a,
  group_set 4 8 4 x (bit_or x (2 ^ k)) i _ (low_test _) u (Full-more 4 8 x k),
  other_parent 5 i _ (set_other 4 5 i _ (omega arith)) v
      (Full-set 8 24 x k (λ j e f g. omega arith)),
)

pub high_set :
    (x i k : ℕ)
    → 8 ≤ k
    → k < 24
    → Parents x i
    → Parents
        (bit_or x (2 ^ k))
        (if bit_or x (2 ^ k) / 2 ^ 8 == 0xffff then bit_or i (2 ^ 5) else i)
high_set x i k l h (a, u, v) =
    let b : Above (bit_or x (2 ^ k)) = Above-set x k h a in
    (
      b,
      other_parent 4 i _ (set_other 5 4 i _ (omega arith)) u
          (Full-set 4 8 x k (λ j e f g. omega arith)),
      group_set 8 24 5 x (bit_or x (2 ^ k)) i _ (high_test _ b) v (Full-more 8 24 x k),
    )

pub low_clear_line :
    (x i k : ℕ)
    → 4 ≤ k
    → k < 8
    → Parents x i
    → Parents
        (bit_and x (all_but k))
        (if bit_and (bit_and x (all_but k)) 0xf0 == 0xf0 then i else bit_and i (all_but 4))
low_clear_line x i k l h (a, u, v) = (
  Above-clear x k a,
  group_clear 4 8 4 (bit_and x (all_but k)) i _ (omega arith) (low_test _)
      (never-Full 4 8 x k l h (omega arith)),
  other_parent 5 i _ (clear_other 4 5 i _ (omega arith) (omega arith)) v
      (Full-clear 8 24 x k (omega arith) (λ j e f g. omega arith)),
)

pub high_clear_line :
    (x i k : ℕ)
    → 8 ≤ k
    → k < 24
    → Parents x i
    → Parents
        (bit_and x (all_but k))
        (if bit_and x (all_but k) / 2 ^ 8 == 0xffff then i else bit_and i (all_but 5))
high_clear_line x i k l h (a, u, v) =
    let b : Above (bit_and x (all_but k)) = Above-clear x k a in
    (
      b,
      other_parent 4 i _ (clear_other 5 4 i _ (omega arith) (omega arith)) u
          (Full-clear 4 8 x k (omega arith) (λ j e f g. omega arith)),
      group_clear 8 24 5 (bit_and x (all_but k)) i _ (omega arith) (high_test _ b)
          (never-Full 8 24 x k l h (omega arith)),
    )
