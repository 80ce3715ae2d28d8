-- ===== src/Irq/Ffs.antt =====
-- include/__ffs.h: the lowest bit of a word of 32 bits that is set.
use mine_os.Prelude.{
  ℕ, ◌+◌, ◌-◌, ◌/◌, ◌^◌, ◌<◌, ◌≤◌, ◌==◌, ◌≡◌, ◌≢◌, ◌∙◌, refl, sym, bit_and, true, false, arith,
  if◌then◌else◌, Bool-cases, inl, inr, ltb,
}
use mine_os.Bits.{test_bit, test_bit-zero, test_bit-shr, test_bit_above, bit_cong, eq_of_bits}
use mine_os.Bits.Clear.{low_clear, clear_low}

-- One step of the search: where the low k bits are clear, they are skipped.
abbrev narrow : ℕ → ℕ × ℕ → ℕ × ℕ
narrow k (num, word) =
    if bit_and word (2 ^ k - 1) == 0 then (num + k, word / 2 ^ k) else (num, word)

unfoldable pub ffs : ℕ → ℕ
ffs word = (narrow 1 (narrow 2 (narrow 4 (narrow 8 (narrow 16 (0, word)))))).0

true_ne_false : true ≢ false
true_ne_false h = cc

-- Not all of the low n bits are clear.
abbrev HasLow : ℕ → ℕ → Type 0
HasLow n w = ((j : ℕ) → j < n → test_bit w j ≡ false) → ⊥

-- Of the word x, num bits are skipped, and w is the rest, with a bit set among the low n.
record Narrowed (x n : ℕ) (s : ℕ × ℕ) : Type 0 where
  skipped : (j : ℕ) → j < s.0 → test_bit x j ≡ false
  rest : (j : ℕ) → test_bit s.1 j ≡ test_bit x (s.0 + j)
  low : HasLow n s.1

narrow_lem : (x k : ℕ) (s : ℕ × ℕ) → Narrowed x (k + k) s → Narrowed x k (narrow k s)
narrow_lem x k (num, w) r = elim (Bool-cases (bit_and w (2 ^ k - 1) == 0)) [
  | inl e ↦ rw e (record {
    skipped = λ j h. elim (Bool-cases (ltb j num)) [
      | inl c ↦ r.skipped j (ground arith)
      | inr c ↦
          let ge : num ≤ j = ground arith in
          bit_cong x x j (num + (j - num)) refl (omega arith)
          ∙ sym (r.rest (j - num))
          ∙ low_clear w k e (j - num) (omega arith)
    ];
    rest = λ j.
        test_bit-shr k j w
        ∙ r.rest (k + j)
        ∙ bit_cong x x (num + (k + j)) (num + k + j) refl (omega arith);
    low = λ all. r.low (λ j h. elim (Bool-cases (ltb j k)) [
      | inl c ↦ low_clear w k e j (ground arith)
      | inr c ↦
          let ge : k ≤ j = ground arith in
          bit_cong w w j (k + (j - k)) refl (omega arith)
          ∙ sym (test_bit-shr k (j - k) w)
          ∙ all (j - k) (omega arith)
    ]);
  })
  | inr e ↦ rw e (record {
    skipped = r.skipped;
    rest = r.rest;
    low = λ all. true_ne_false (sym (clear_low w k all) ∙ e);
  })
]

start : (x : ℕ) → x < 2 ^ 32 → x ≢ 0 → Narrowed x 32 (0, x)
start x h ne = record {
  skipped = λ j k. absurd (omega arith);
  rest = λ j. bit_cong x x j (0 + j) refl (omega arith);
  low = λ all. ne (
      eq_of_bits x 0 λ j.
        (elim (Bool-cases (ltb j 32)) [
          | inl c ↦ all j (ground arith)
          | inr c ↦ test_bit_above j 32 x h (ground arith)
        ])
        ∙ sym (test_bit-zero j));
}

lowest : (x : ℕ) (s : ℕ × ℕ) → Narrowed x 1 s → test_bit x s.0 ≡ true
lowest x (num, w) r = elim (Bool-cases (test_bit w 0)) [
  | inl e ↦ bit_cong x x num (num + 0) refl (omega arith) ∙ sym (r.rest 0) ∙ e
  | inr e ↦ absurd (r.low (λ j h. bit_cong w w j 0 refl (omega arith) ∙ e))
]

-- The bit that __ffs finds in a word that is not zero is set, and no bit below it is.
pub ffs_lem :
    (x : ℕ)
    → x < 2 ^ 32
    → x ≢ 0
    → (test_bit x (ffs x) ≡ true) × ((j : ℕ) → j < ffs x → test_bit x j ≡ false)
unfolding ffs
ffs_lem x h ne =
    let r =
      narrow_lem x 1 _ (
        narrow_lem x 2 _
          (narrow_lem x 4 _ (narrow_lem x 8 _ (narrow_lem x 16 _ (start x h ne))))) in
    (lowest x _ r, r.skipped)
