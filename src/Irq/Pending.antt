-- ===== src/Irq/Pending.antt =====
-- kernel/irq.c: which lines the demultiplexers serve.
use mine_os.Prelude.{
  ℕ, ◌+◌, ◌-◌, ◌^◌, ◌<◌, ◌==◌, ◌≡◌, ◌∙◌, refl, sym, ap, bit_and, Bool, true, false, ◌&&◌, not,
  arith, some, if◌then◌else◌, Bool-cases, inl, inr, ==_iff, ltb, lt→ltb,
}
use mine_os.Bits.{
  test_bit, test_bit-zero, test_bit-and, test_bit-mask, test_bit-shr, bit_cong, bit_and_pow,
}
use mine_os.Bits.Clear.{complement, test_bit-complement}
use mine_os.Softirq.Serve.{served}
use mine_os.Irq.{Register, Machine, irq_rx0}
use mine_os.Irq.Demux.{
  handler_of, handle_lem, bounded_and, s3c_irq_demux_extint8, s3c_irq_demux_extint4t7, pending_from,
  demux_two, call_if, s3c_irq_demux_adc, s3c_irq_demux_cam, s3c_irq_demux_wdtac97,
  s3c_irq_demux_uart,
}

not_bit : (x j : ℕ) → j < 32 → test_bit (complement x) j ≡ not (test_bit x j)
not_bit x j h = test_bit-complement x j ∙ rw (lt→ltb j 32 h)

test_bit-and_not :
    (x y j : ℕ)
    → j < 32
    → test_bit (bit_and x (complement y)) j ≡ (test_bit x j && not (test_bit y j))
test_bit-and_not x y j h = test_bit-and j x (complement y) ∙ rw (not_bit y j h)

module _ {D : Type 0} (m : Machine D) (generic_handle_irq : ℕ → D → D) (d : D) where
  -- The external line behind bit j is pending and not masked.
  abbrev pub is_live : ℕ → Bool
  is_live j =
      test_bit (m.read Register.eintpend d) j && not (test_bit (m.read Register.eintmask d) j)

  -- The sub-interrupt of bit j is pending and not masked.
  abbrev pub is_live_sub : ℕ → Bool
  is_live_sub j =
      test_bit (m.read Register.subsrcpnd d) j && not (test_bit (m.read Register.intsubmsk d) j)

  -- The demultiplexer of the lines 8 to 23 ends and calls the handlers of those of its lines that
  -- are pending and not masked when it starts, each once, from the lowest to the highest.
  pub s3c_irq_demux_extint8_lem :
      (fuel : ℕ)
      → m.read Register.eintpend d < 2 ^ 32
      → 32 < fuel
      → (p : ℕ) × ((j : ℕ) → j < 32 → test_bit p j ≡ (is_live j && not (ltb j 8)))
        × (s3c_irq_demux_extint8 m generic_handle_irq fuel d
            ≡ some (served (handler_of m generic_handle_irq) p 32 0 d))
  unfolding s3c_irq_demux_extint8
  s3c_irq_demux_extint8_lem fuel h enough =
      let live = bit_and (m.read Register.eintpend d) (complement (m.read Register.eintmask d)) in
      (
        bit_and live (complement 0xff),
        λ j k.
            test_bit-and_not live 0xff j k
            ∙ rw (
              test_bit-and_not (m.read Register.eintpend d) (m.read Register.eintmask d) j k,
              test_bit-mask j 8,
            ),
        handle_lem m generic_handle_irq 32 0 fuel _ d
            (
              bounded_and live _ (bounded_and (m.read Register.eintpend d) _ h),
              λ j k. absurd (omega arith),
            )
            (omega arith) enough,
      )

  -- The demultiplexer of the lines 4 to 7 does the same for the bits below 8.
  pub s3c_irq_demux_extint4t7_lem :
      (fuel : ℕ)
      → m.read Register.eintpend d < 2 ^ 32
      → 32 < fuel
      → (p : ℕ) × ((j : ℕ) → j < 32 → test_bit p j ≡ (is_live j && ltb j 8))
        × (s3c_irq_demux_extint4t7 m generic_handle_irq fuel d
            ≡ some (served (handler_of m generic_handle_irq) p 32 0 d))
  unfolding s3c_irq_demux_extint4t7
  s3c_irq_demux_extint4t7_lem fuel h enough =
      let live = bit_and (m.read Register.eintpend d) (complement (m.read Register.eintmask d)) in
      (
        bit_and live 0xff,
        λ j k.
            test_bit-and j live 0xff
            ∙ rw (
              test_bit-and_not (m.read Register.eintpend d) (m.read Register.eintmask d) j k,
              test_bit-mask j 8,
            ),
        handle_lem m generic_handle_irq 32 0 fuel _ d
            (
              bounded_and live _ (bounded_and (m.read Register.eintpend d) _ h),
              λ j k. absurd (omega arith),
            )
            (omega arith) enough,
      )

  pending_bit :
      (offset n j : ℕ)
      → offset + j < 32
      → j < n
      → test_bit (pending_from m generic_handle_irq offset (2 ^ n - 1) d) j
        ≡ is_live_sub (offset + j)
  pending_bit offset n j h k =
      test_bit-and j _ (2 ^ n - 1)
      ∙ rw
          (
            test_bit-mask j n,
            lt→ltb j n k,
            test_bit-shr offset j _,
            test_bit-and_not (m.read Register.subsrcpnd d) (m.read Register.intsubmsk d)
                (offset + j) h,
          )
          (ground arith)

  zero_bit : (x j : ℕ) → (x == 0) ≡ true → test_bit x j ≡ false
  zero_bit x j e = bit_cong x 0 j j ((==_iff x 0).0 e) refl ∙ test_bit-zero j

  abbrev pub when : Bool → (D → D) → D → D
  when b f e = if b then f e else e

  call_when :
      (s j irq : ℕ) (e : D)
      → call_if m generic_handle_irq s (2 ^ j) irq e
        ≡ when (test_bit s j) (generic_handle_irq irq) e
  call_when s j irq e = elim (Bool-cases (test_bit s j)) [
    | inl b ↦ rw (bit_and_pow s j, b)
    | inr b ↦ rw (bit_and_pow s j, b)
  ]

  skip_zero : (s : ℕ) (e : D) → ((s == 0) ≡ true → e ≡ d) → (if s == 0 then d else e) ≡ e
  skip_zero s e h = elim (Bool-cases (s == 0)) [ inl z ↦ rw z (sym (h z)) | inr z ↦ rw z ]

  demux_two_lem :
      (offset : ℕ)
      → offset < 31
      → demux_two m generic_handle_irq offset d
        ≡ when
            (is_live_sub (offset + 1))
            (generic_handle_irq (irq_rx0 + offset + 1))
            (when (is_live_sub (offset + 0)) (generic_handle_irq (irq_rx0 + offset)) d)
  unfolding demux_two
  demux_two_lem offset h =
      let s = pending_from m generic_handle_irq offset 3 d in
      let lower = call_when s 0 (irq_rx0 + offset) d in
      skip_zero s _ (λ z.
        call_when s 1 (irq_rx0 + offset + 1) _ ∙ rw (zero_bit s 1 z) (lower ∙ rw (zero_bit s 0 z)))
      ∙ call_when s 1 (irq_rx0 + offset + 1) _
      ∙ rw (pending_bit offset 2 1 (omega arith) (omega arith)) (
          ap (when (is_live_sub (offset + 1)) (generic_handle_irq (irq_rx0 + offset + 1)))
            (lower ∙ rw (pending_bit offset 2 0 (omega arith) (omega arith))))

  -- The demultiplexers for ADC (bits 9, 10), camera (11, 12) and watchdog and AC97 (13, 14) call
  -- the handler of each of their two lines that is pending and not masked, the lower one first.
  demux_pairs :
      (s3c_irq_demux_adc m generic_handle_irq d
        ≡ when
            (is_live_sub 10)
            (generic_handle_irq 64)
            (when (is_live_sub 9) (generic_handle_irq 63) d))
      × (s3c_irq_demux_cam m generic_handle_irq d
          ≡ when
              (is_live_sub 12)
              (generic_handle_irq 66)
              (when (is_live_sub 11) (generic_handle_irq 65) d))
      × (s3c_irq_demux_wdtac97 m generic_handle_irq d
          ≡ when
              (is_live_sub 14)
              (generic_handle_irq 68)
              (when (is_live_sub 13) (generic_handle_irq 67) d))
  unfolding s3c_irq_demux_adc s3c_irq_demux_cam s3c_irq_demux_wdtac97
  demux_pairs = (
    demux_two_lem 9 (omega arith),
    demux_two_lem 11 (omega arith),
    demux_two_lem 13 (omega arith),
  )

  -- The demultiplexer of a UART calls the handlers of its receive, transmit and error lines that
  -- are pending and not masked, in this order, where k is the bit of the first of them.
  s3c_irq_demux_uart_lem :
      (k : ℕ)
      → k < 30
      → s3c_irq_demux_uart m generic_handle_irq (irq_rx0 + k) d
        ≡ when (is_live_sub (k + 2)) (generic_handle_irq (irq_rx0 + k + 2)) (
            when
              (is_live_sub (k + 1))
              (generic_handle_irq (irq_rx0 + k + 1))
              (when (is_live_sub (k + 0)) (generic_handle_irq (irq_rx0 + k)) d))
  unfolding s3c_irq_demux_uart
  s3c_irq_demux_uart_lem k h =
      let offset : irq_rx0 + k - irq_rx0 ≡ k = omega arith in
      let s = pending_from m generic_handle_irq k 7 d in
      let first = call_when s 0 (irq_rx0 + k) d in
      rw offset (
        skip_zero s _ (λ z.
          call_when s 2 (irq_rx0 + k + 2) _
          ∙ rw (zero_bit s 2 z) (
              call_when s 1 (irq_rx0 + k + 1) _
              ∙ rw (zero_bit s 1 z) (first ∙ rw (zero_bit s 0 z))))
        ∙ call_when s 2 (irq_rx0 + k + 2) _
        ∙ rw (pending_bit k 3 2 (omega arith) (omega arith)) (
            ap (when (is_live_sub (k + 2)) (generic_handle_irq (irq_rx0 + k + 2))) (
              call_when s 1 (irq_rx0 + k + 1) _
              ∙ rw (pending_bit k 3 1 (omega arith) (omega arith)) (
                  ap (when (is_live_sub (k + 1)) (generic_handle_irq (irq_rx0 + k + 1)))
                    (first ∙ rw (pending_bit k 3 0 (omega arith) (omega arith)))))))
