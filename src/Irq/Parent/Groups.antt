-- ===== src/Irq/Parent/Groups.antt =====
-- kernel/irq.c: words of mask bits, of which a range is full or not, and a bit that says so.
use mine_os.Prelude.{
  ℕ, ◌+◌, ◌-◌, ◌/◌, ◌^◌, ◌<◌, ◌≤◌, ==_false, ◌==◌, ◌≡◌, ◌≢◌, ◌↔◌, ◌∙◌, refl, sym, Bool, true, false,
  ◌&&◌, arith, if◌then◌else◌, Bool-cases, inl, inr, ltb, leb, ==_iff, lt→ltb, le→leb, bit_and,
  bit_or,
}
use mine_os.Bits.{
  test_bit, test_bit-and, test_bit-or, test_bit-pow, test_bit-shl, test_bit-shr, test_bit-mask,
  bit_cong, eq_of_bits, bit_laws,
}
use mine_os.Bits.Clear.{all_but, cleared, cleared_above}

-- The bits from lo to hi - 1 are set.
abbrev pub Full : ℕ → ℕ → ℕ → Type 0
Full lo hi x = (j : ℕ) → lo ≤ j → j < hi → test_bit x j ≡ true

mask_low : (j : ℕ) → test_bit 0xf0 j ≡ (leb 4 j && ltb j 8)
mask_low j = test_bit-shl j 4 15 ∙ rw (test_bit-mask (j - 4) 4) (ground arith)

pub low_test : (x : ℕ) → ((bit_and x 0xf0 == 0xf0) ≡ true) ↔ Full 4 8 x
low_test x = (
  λ e j l h.
      sym (rw (test_bit-and j x 0xf0, mask_low j, le→leb 4 j l, lt→ltb j 8 h) (ground arith))
      ∙ bit_cong (bit_and x 0xf0) 0xf0 j j ((==_iff _ _).0 e) refl
      ∙ (rw (mask_low j, le→leb 4 j l, lt→ltb j 8 h)),
  λ f. (==_iff (bit_and x 0xf0) 0xf0).1 (eq_of_bits (bit_and x 0xf0) 0xf0 (λ j. bit f j)),
)
  where
    bit : Full 4 8 x → (j : ℕ) → test_bit (bit_and x 0xf0) j ≡ test_bit 0xf0 j
    bit f j = elim (Bool-cases (leb 4 j && ltb j 8)) [
      | inl c ↦ rw (test_bit-and j x 0xf0, mask_low j, c, f j (ground arith) (ground arith))
      | inr c ↦ rw (test_bit-and j x 0xf0, mask_low j, c) (ground arith)
    ]

-- The register has no bit from 24 on.
abbrev pub Above : ℕ → Type 0
Above x = (j : ℕ) → 24 ≤ j → test_bit x j ≡ false

pub high_test : (x : ℕ) → Above x → ((x / 2 ^ 8 == 0xffff) ≡ true) ↔ Full 8 24 x
high_test x b = (
  λ e j l h.
      bit_cong x x j (8 + (j - 8)) refl (omega arith)
      ∙ sym (test_bit-shr 8 (j - 8) x)
      ∙ bit_cong (x / 2 ^ 8) 0xffff (j - 8) (j - 8) ((==_iff _ _).0 e) refl
      ∙ test_bit-mask (j - 8) 16
      ∙ lt→ltb (j - 8) 16 (omega arith),
  λ f. (==_iff (x / 2 ^ 8) 0xffff).1 (eq_of_bits (x / 2 ^ 8) 0xffff (λ j. bit f j)),
)
  where
    bit : Full 8 24 x → (j : ℕ) → test_bit (x / 2 ^ 8) j ≡ test_bit 0xffff j
    bit f j = elim (Bool-cases (ltb j 16)) [
      | inl c ↦
          rw (test_bit-shr 8 j x, test_bit-mask j 16, c, f (8 + j) (omega arith) (ground arith))
      | inr c ↦ rw (test_bit-shr 8 j x, test_bit-mask j 16, c, b (8 + j) (ground arith))
    ]

true_ne_false : true ≢ false
true_ne_false h = cc

-- A bit set in the mask of the lines, and the parent then set where the group is full.
pub group_set :
    (lo hi p x x' i : ℕ) (t : Bool)
    → ((t ≡ true) ↔ Full lo hi x')
    → ((test_bit i p ≡ true) ↔ Full lo hi x)
    → (Full lo hi x → Full lo hi x')
    → (test_bit (if t then bit_or i (2 ^ p) else i) p ≡ true) ↔ Full lo hi x'
group_set lo hi p x x' i true t old more =
    ((λ _. t.0 refl), λ _. rw (test_bit-or p i (2 ^ p), test_bit-pow p p) (ground arith))
group_set lo hi p x x' i false t old more =
    ((λ e. more (old.0 e)), λ f. absurd (true_ne_false (sym (t.1 f))))

-- A bit cleared in the mask of the lines, and the parent cleared where the group is not full.
pub group_clear :
    (lo hi p x' i : ℕ) (t : Bool)
    → p < 32
    → ((t ≡ true) ↔ Full lo hi x')
    → (Full lo hi x' → ⊥)
    → (test_bit (if t then i else bit_and i (all_but p)) p ≡ true) ↔ Full lo hi x'
group_clear lo hi p x' i true h t never = absurd (never (t.0 refl))
group_clear lo hi p x' i false h t never =
    let off : test_bit (bit_and i (all_but p)) p ≡ false = cleared i p p h ∙ (ground arith) in
    ((λ e. absurd (true_ne_false (sym e ∙ off))), λ f. absurd (never f))

pub set_other :
    (p q i : ℕ) (t : Bool) → q ≢ p → test_bit (if t then bit_or i (2 ^ p) else i) q ≡ test_bit i q
set_other p q i true h = rw (test_bit-or q i (2 ^ p), test_bit-pow q p) (ground arith)
set_other p q i false h = refl

pub clear_other :
    (p q i : ℕ) (t : Bool)
    → q < 32
    → q ≢ p
    → test_bit (if t then i else bit_and i (all_but p)) q ≡ test_bit i q
clear_other p q i true h ne = refl
clear_other p q i false h ne = cleared i p q h ∙ (ground arith)

pub Above-set : (x k : ℕ) → k < 24 → Above x → Above (bit_or x (2 ^ k))
Above-set x k h a j l = simp (bit_laws, a j l, ==_false j k (omega arith))

pub Above-clear : (x k : ℕ) → Above x → Above (bit_and x (all_but k))
Above-clear x k a j l = cleared_above x k j (a j l)

pub Full-more : (lo hi x k : ℕ) → Full lo hi x → Full lo hi (bit_or x (2 ^ k))
Full-more lo hi x k f j l h = simp (bit_laws, f j l h)

pub Full-set :
    (lo hi x k : ℕ)
    → ((j : ℕ) → lo ≤ j → j < hi → j ≢ k)
    → Full lo hi x ↔ Full lo hi (bit_or x (2 ^ k))
Full-set lo hi x k apart = (Full-more lo hi x k, λ f j l h. sym (same j (apart j l h)) ∙ f j l h)
  where
    same : (j : ℕ) → j ≢ k → test_bit (bit_or x (2 ^ k)) j ≡ test_bit x j
    same j ne = rw (test_bit-or j x (2 ^ k), test_bit-pow j k) (ground arith)

pub Full-clear :
    (lo hi x k : ℕ)
    → hi ≤ 32
    → ((j : ℕ) → lo ≤ j → j < hi → j ≢ k)
    → Full lo hi x ↔ Full lo hi (bit_and x (all_but k))
Full-clear lo hi x k b apart = (
  λ f j l h. same j (apart j l h) (omega arith) ∙ f j l h,
  λ f j l h. sym (same j (apart j l h) (omega arith)) ∙ f j l h,
)
  where
    same : (j : ℕ) → j ≢ k → j < 32 → test_bit (bit_and x (all_but k)) j ≡ test_bit x j
    same j ne h = cleared x k j h ∙ (ground arith)

pub never-Full : (lo hi x k : ℕ) → lo ≤ k → k < hi → k < 32 → Full lo hi (bit_and x (all_but k)) → ⊥
never-Full lo hi x k l h b f = true_ne_false (sym (f k l h) ∙ cleared x k k b ∙ (ground arith))

-- Another parent, whose bit and whose lines are left alone.
pub other_parent :
    {A : Type 0} {B : Type 0} (q i i' : ℕ)
    → test_bit i' q ≡ test_bit i q
    → ((test_bit i q ≡ true) ↔ A)
    → A ↔ B
    → (test_bit i' q ≡ true) ↔ B
other_parent q i i' e t u = ((λ h. u.0 (t.0 (sym e ∙ h))), λ b. e ∙ t.1 (u.1 b))
