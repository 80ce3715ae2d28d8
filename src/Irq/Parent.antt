-- ===== src/Irq/Parent.antt =====
-- kernel/irq.c: the external lines share the main lines 4 (the bits 4 to 7 of EINTMASK) and 5 (the
-- bits 8 to 23), whose bits of INTMSK the functions of the external lines keep up to date.
pub mod Groups
pub mod Words
use mine_os.Prelude.{
  ℕ, ◌+◌, ◌-◌, ◌/◌, ◌^◌, ◌<◌, ◌≤◌, ==_false, ◌==◌, ◌≡◌, ◌≢◌, ◌↔◌, ◌∙◌, refl, sym, Bool, true, false,
  ◌&&◌, arith, if◌then◌else◌, Bool-cases, inl, inr, ltb, leb, ==_iff, lt→ltb, le→leb, bit_and,
  bit_or,
}
use mine_os.Bits.{
  test_bit, test_bit-and, test_bit-or, test_bit-pow, test_bit-shl, test_bit-shr, test_bit-mask,
  bit_cong, eq_of_bits, bit_laws,
}
use mine_os.Bits.Clear.{all_but, cleared, cleared_above}
use mine_os.Irq.{
  Register, Machine, s3c_irq_mask, s3c_irq_unmask, s3c_irqext_mask, s3c_irqext_unmask,
}
use mine_os.Irq.Parent.Words.{Parents, low_set, high_set, low_clear_line, high_clear_line}

-- The mask registers hold what is written, each apart from the other.
pub record IsMachine {D : Type 0} (m : Machine D) : Type 0 where
  pub lines_kept : (v : ℕ) (d : D) → m.read Register.eintmask (m.write Register.eintmask v d) ≡ v
  pub main_kept : (v : ℕ) (d : D) → m.read Register.intmsk (m.write Register.intmsk v d) ≡ v
  pub lines_apart :
      (v : ℕ) (d : D)
      → m.read Register.eintmask (m.write Register.intmsk v d) ≡ m.read Register.eintmask d
  pub main_apart :
      (v : ℕ) (d : D)
      → m.read Register.intmsk (m.write Register.eintmask v d) ≡ m.read Register.intmsk d

module _ {D : Type 0} (m : Machine D) (laws : IsMachine m) where
  abbrev pub HasParents : D → Type 0
  HasParents d = Parents (m.read Register.eintmask d) (m.read Register.intmsk d)

  -- The registers after a write of EINTMASK, and the change f of INTMSK where b holds.
  then_mask :
      (b : Bool) (x : ℕ) (f : ℕ → ℕ) (d : D)
      → Parents x (if b then f (m.read Register.intmsk d) else m.read Register.intmsk d)
      → HasParents (
          if b
          then m.write Register.intmsk
              (f (m.read Register.intmsk (m.write Register.eintmask x d)))
              (m.write Register.eintmask x d)
          else m.write Register.eintmask x d)
  then_mask true x f d h =
      let d' = m.write Register.eintmask x d in
      rw (laws.main_apart x d) (
        rw
          (
            laws.lines_apart (f (m.read Register.intmsk d)) d',
            laws.lines_kept x d,
            laws.main_kept (f (m.read Register.intmsk d)) d',
          )
          h)
  then_mask false x f d h = rw (laws.lines_kept x d, laws.main_apart x d) h

  unless_mask :
      (b : Bool) (x : ℕ) (f : ℕ → ℕ) (d : D)
      → Parents x (if b then m.read Register.intmsk d else f (m.read Register.intmsk d))
      → HasParents (
          if b
          then m.write Register.eintmask x d
          else m.write Register.intmsk
              (f (m.read Register.intmsk (m.write Register.eintmask x d)))
              (m.write Register.eintmask x d))
  unless_mask true x f d h = then_mask false x f d h
  unless_mask false x f d h = then_mask true x f d h

  -- Masking or unmasking an external line keeps the parents: a main line is masked exactly when all
  -- its external lines are, for a machine whose mask registers hold what is written, each apart
  -- from the other, and an interrupt from 32 to 51.
  pub s3c_irqext-HasParents :
      (irq : ℕ) (d : D)
      → 32 ≤ irq
      → irq < 52
      → HasParents d
      → HasParents (s3c_irqext_mask m irq d) × HasParents (s3c_irqext_unmask m irq d)
  unfolding s3c_irqext_mask s3c_irqext_unmask s3c_irq_mask s3c_irq_unmask
  s3c_irqext-HasParents irq d l h p = elim (Bool-cases (leb irq 35)) [
    | inl c ↦ rw c (
        (
          then_mask _ _ (λ i. bit_or i (2 ^ 4)) d
              (low_set _ _ (irq - 28) (omega arith) (ground arith) p),
          unless_mask _ _ (λ i. bit_and i (all_but 4)) d
              (low_clear_line _ _ (irq - 28) (omega arith) (ground arith) p),
        ))
    | inr c ↦ rw c (
        (
          then_mask _ _ (λ i. bit_or i (2 ^ 5)) d
              (high_set _ _ (irq - 28) (ground arith) (omega arith) p),
          unless_mask _ _ (λ i. bit_and i (all_but 5)) d
              (high_clear_line _ _ (irq - 28) (ground arith) (omega arith) p),
        ))
  ]
