-- ===== src/Irq/Demux.antt =====
-- kernel/irq.c: the handlers that find which of the lines behind one interrupt are pending, and
-- call `generic_handle_irq` for each, which is a parameter here: Irq/Dispatch gives it.
use mine_os.Prelude.{
  ℕ, zero, suc, ◌%◌, ◌+◌, ◌-◌, ◌/◌, ◌^◌, ◌<◌, ◌≤◌, ◌==◌, ◌≡◌, ◌≢◌, ◌∙◌, refl, sym, ap, bit_and,
  true, false, arith, Option, none, some, if◌then◌else◌, Bool-cases, inl, inr, ==_iff, ==_false,
  ltb,
}
use mine_os.Bits.{
  test_bit, test_bit-zero, test_bit-and, test_bit_above, test_bit-mod, bit_cong, eq_of_bits,
}
use mine_os.Bits.Clear.{complement, all_but, cleared, cleared_above}
use mine_os.Softirq.Serve.{served}
use mine_os.Irq.{Register, Machine, extint_off, irq_rx0}
use mine_os.Irq.Ffs.{ffs, ffs_lem}

module _ {D : Type 0} (m : Machine D) (generic_handle_irq : ℕ → D → D) where
  -- The loop of the two external demultiplexers, on fuel; `none` means that it ran out.
  unfoldable pub handle_pending : ℕ → ℕ → D → Option D
  handle_pending zero eintpnd d = none
  handle_pending (suc fuel) eintpnd d =
      let irq = ffs eintpnd in
      let rest =
        handle_pending fuel (bit_and eintpnd (all_but irq))
          (generic_handle_irq (irq + extint_off) d) in
      if eintpnd == 0 then some d else rest

  unfoldable pub s3c_irq_demux_extint8 : ℕ → D → Option D
  s3c_irq_demux_extint8 fuel d =
      let eintpnd =
        bit_and (m.read Register.eintpend d) (complement (m.read Register.eintmask d)) in
      handle_pending fuel (bit_and eintpnd (complement 0xff)) d

  unfoldable pub s3c_irq_demux_extint4t7 : ℕ → D → Option D
  s3c_irq_demux_extint4t7 fuel d =
      let eintpnd =
        bit_and (m.read Register.eintpend d) (complement (m.read Register.eintmask d)) in
      handle_pending fuel (bit_and eintpnd 0xff) d

  -- The sub-interrupts that are pending and not masked, from bit `offset` on.
  abbrev pub pending_from : ℕ → ℕ → D → ℕ
  pending_from offset mask d =
      bit_and
        (bit_and (m.read Register.subsrcpnd d) (complement (m.read Register.intsubmsk d))
          / 2 ^ offset)
        mask

  abbrev pub call_if : ℕ → ℕ → ℕ → D → D
  call_if subsrc bit irq d = if bit_and subsrc bit == 0 then d else generic_handle_irq irq d

  -- The common text of the demultiplexers for ADC, camera, and watchdog or AC97.
  unfoldable pub demux_two : ℕ → D → D
  demux_two offset d =
      let subsrc = pending_from offset 3 d in
      if subsrc == 0
      then d
      else call_if subsrc 2 (irq_rx0 + offset + 1) (call_if subsrc 1 (irq_rx0 + offset) d)

  unfoldable pub s3c_irq_demux_adc : D → D
  s3c_irq_demux_adc d = demux_two 9 d

  unfoldable pub s3c_irq_demux_cam : D → D
  s3c_irq_demux_cam d = demux_two 11 d

  unfoldable pub s3c_irq_demux_wdtac97 : D → D
  s3c_irq_demux_wdtac97 d = demux_two 13 d

  unfoldable pub s3c_irq_demux_uart : ℕ → D → D
  s3c_irq_demux_uart start d =
      let subsrc = pending_from (start - irq_rx0) 7 d in
      if subsrc == 0
      then d
      else call_if subsrc 4 (start + 2) (call_if subsrc 2 (start + 1) (call_if subsrc 1 start d))

  unfoldable pub s3c_irq_demux_uart0 : D → D
  s3c_irq_demux_uart0 d = s3c_irq_demux_uart irq_rx0 d

  unfoldable pub s3c_irq_demux_uart1 : D → D
  s3c_irq_demux_uart1 d = s3c_irq_demux_uart (irq_rx0 + 3) d

  unfoldable pub s3c_irq_demux_uart2 : D → D
  s3c_irq_demux_uart2 d = s3c_irq_demux_uart (irq_rx0 + 6) d

served-cong :
    {W : Type 0} (f : ℕ → W → W) (x y n i : ℕ) (w : W)
    → ((j : ℕ) → i ≤ j → test_bit x j ≡ test_bit y j)
    → served f x n i w ≡ served f y n i w
served-cong f x y zero i w h = refl
served-cong f x y (suc n) i w h =
    rw (h i (omega arith)) (served-cong f x y n (i + 1) _ (λ j k. h j (omega arith)))

true_ne_false : true ≢ false
true_ne_false h = cc

-- The lowest bit set, known as such, is the one that __ffs finds.
ffs_unique :
    (x i : ℕ)
    → x < 2 ^ 32
    → test_bit x i ≡ true
    → ((j : ℕ) → j < i → test_bit x j ≡ false)
    → ffs x ≡ i
ffs_unique x i h e low = elim (Bool-cases (ltb (ffs x) i)) [
  | inl c ↦ absurd (true_ne_false (sym (ffs_lem x h ne).0 ∙ low (ffs x) (ground arith)))
  | inr c ↦ elim (Bool-cases (ltb i (ffs x))) [
    | inl d ↦ absurd (true_ne_false (sym e ∙ (ffs_lem x h ne).1 i (ground arith)))
    | inr d ↦ ground arith
  ]
]
  where
    ne : x ≢ 0
    ne z = true_ne_false (sym e ∙ bit_cong x 0 i i z refl ∙ test_bit-zero i)

-- A word with bits from i to 31 alone.
abbrev IsFrom : ℕ → ℕ → Type 0
IsFrom i x = (x < 2 ^ 32) × ((j : ℕ) → j < i → test_bit x j ≡ false)

cut : (x : ℕ) → ((j : ℕ) → 32 ≤ j → test_bit x j ≡ false) → x ≡ x % 2 ^ 32
cut x h = eq_of_bits x (x % 2 ^ 32) λ j. elim (Bool-cases (ltb j 32)) [
  | inl c ↦ sym (test_bit-mod j 32 x ∙ rw c)
  | inr c ↦ h j (ground arith) ∙ sym (test_bit-mod j 32 x ∙ rw c)
]

pub bounded_and : (x y : ℕ) → x < 2 ^ 32 → bit_and x y < 2 ^ 32
bounded_and x y h =
    omega (arith, cut (bit_and x y) (λ j k. test_bit-and j x y ∙ rw (test_bit_above j 32 x h k)))

module _ {D : Type 0} (m : Machine D) (generic_handle_irq : ℕ → D → D) where
  -- The handler of the external line behind bit j.
  abbrev pub handler_of : ℕ → D → D
  handler_of j d = generic_handle_irq (j + extint_off) d

  handle_none : (fuel i : ℕ) (d : D) → handle_pending m generic_handle_irq (suc fuel) 0 d ≡ some d
  unfolding handle_pending
  handle_none fuel i d = refl

  handle_one :
      (fuel i x : ℕ) (d : D)
      → IsFrom i x
      → test_bit x i ≡ true
      → handle_pending m generic_handle_irq (suc fuel) x d
        ≡ handle_pending m generic_handle_irq fuel (bit_and x (all_but i)) (handler_of i d)
  unfolding handle_pending
  handle_one fuel i x d r e =
      let ne : (x == 0) ≡ false =
        ==_false x 0 (λ z. true_ne_false (sym e ∙ bit_cong x 0 i i z refl ∙ test_bit-zero i)) in
      rw (ne, ffs_unique x i r.0 e r.1)

  above_cleared : (i x : ℕ) → IsFrom i x → i < 32 → IsFrom (i + 1) (bit_and x (all_but i))
  above_cleared i x r h = (
    bounded_and x (all_but i) r.0,
    λ j k. elim (Bool-cases (j == i)) [
      | inl c ↦ cleared x i j (omega arith) ∙ rw c (ground arith)
      | inr c ↦ cleared_above x i j (r.1 j (ground arith))
    ],
  )

  not_cleared :
      (i x j : ℕ) → x < 2 ^ 32 → i + 1 ≤ j → test_bit (bit_and x (all_but i)) j ≡ test_bit x j
  not_cleared i x j h k = elim (Bool-cases (ltb j 32)) [
    | inl c ↦ cleared x i j (ground arith) ∙ rw (==_false j i (omega arith)) (ground arith)
    | inr c ↦
        let high = test_bit_above j 32 x h (ground arith) in cleared_above x i j high ∙ sym high
  ]

  pub handle_lem :
      (n i fuel x : ℕ) (d : D)
      → IsFrom i x
      → i + n ≡ 32
      → n < fuel
      → handle_pending m generic_handle_irq fuel x d ≡ some (served handler_of x n i d)
  handle_lem n i zero x d r e h = absurd (omega arith)
  handle_lem zero i (suc fuel) x d r e h =
      let z : x ≡ 0 = eq_of_bits x 0 λ j.
        (elim (Bool-cases (ltb j 32)) [
          | inl c ↦ r.1 j (ground arith)
          | inr c ↦ test_bit_above j 32 x r.0 (ground arith)
        ])
        ∙ sym (test_bit-zero j) in
      ap (λ y. handle_pending m generic_handle_irq (suc fuel) y d) z ∙ handle_none fuel i d
  handle_lem (suc n) i (suc fuel) x d r e h = elim (Bool-cases (test_bit x i)) [
    | inl b ↦
        handle_one fuel i x d r b
        ∙ handle_lem n (i + 1) fuel (bit_and x (all_but i)) (handler_of i d)
            (above_cleared i x r (omega arith)) (omega arith) (omega arith)
        ∙ rw b (
            ap some (
              served-cong handler_of (bit_and x (all_but i)) x n (i + 1) (handler_of i d)
                (λ j k. not_cleared i x j r.0 k)))
    | inr b ↦ rw b (
        handle_lem n (i + 1) (suc fuel) x d
          (
            r.0,
            λ j k. elim (Bool-cases (j == i)) [
              | inl c ↦ bit_cong x x j i refl ((==_iff j i).0 c) ∙ b
              | inr c ↦ r.1 j (ground arith)
            ],
          )
          (omega arith) (omega arith))
  ]
