-- ===== src/Softirq/Serve.antt =====
-- kernel/softirq.c: which actions `do_softirq` runs, and what it leaves pending.
use mine_os.Prelude.{
  ℕ, zero, suc, ◌+◌, ◌^◌, ◌≤◌, ◌<◌, ◌==◌, ◌≡◌, ◌≢◌, refl, sym, ap, ◌∙◌, some, if◌then◌else◌,
  bit_and, true, false, arith, ltb, Bool-cases, inl, inr, ==_iff, ==_refl, ==_false, subst,
}
use mine_os.Bits.{test_bit, test_bit-zero, test_bit_above, eq_of_bits, bit_and_pow, bit_cong}
use mine_os.Bits.Clear.{all_but, cleared, cleared_above}
use mine_os.Softirq.{Softirq, Vector, serve, rounds, do_softirq}

module _ {W : Type 0} (f : ℕ → W → W) where
  -- A vector whose actions raise nothing.
  abbrev pub quiet : Vector W
  quiet i = some (λ s. record s { world = f i s.world })

  -- The actions of the bits i, i + 1, …, i + n - 1 of st that are set, run in this order.
  abbrev pub served : ℕ → ℕ → ℕ → W → W
  served st zero i w = w
  served st (suc n) i w = served st n (i + 1) (if test_bit st i then f i w else w)

  served_none :
      (st n i : ℕ) (w : W) → ((j : ℕ) → i ≤ j → test_bit st j ≡ false) → served st n i w ≡ w
  served_none st zero i w h = refl
  served_none st (suc n) i w h =
      rw (h i (omega arith)) (served_none st n (i + 1) w (λ j k. h j (omega arith)))

module _ {W : Type 0} (f : ℕ → W → W) where
  -- The state s before the round i: of the first status st, the bits from i on are left.
  record Round (st i : ℕ) (s : Softirq W) : Type 0 where
    low : (j : ℕ) → j < i → test_bit s.status j ≡ false
    same : (j : ℕ) → i ≤ j → test_bit s.status j ≡ test_bit st j
    high : (j : ℕ) → 32 ≤ j → test_bit st j ≡ false

  status-above :
      {st i : ℕ} {s : Softirq W}
      → Round st i s
      → (j : ℕ) → i ≤ 32
      → 32 ≤ j
      → test_bit s.status j ≡ false
  status-above r j a b = r.same j (omega arith) ∙ r.high j b

  keep :
      {st i : ℕ} {s : Softirq W} → Round st i s → test_bit s.status i ≡ false → Round st (i + 1) s
  keep {st} {i} {s} r e = record {
    low = λ j h. elim (Bool-cases (j == i)) [
      | inl b ↦ bit_cong s.status s.status j i refl ((==_iff j i).0 b) ∙ e
      | inr b ↦ r.low j (ground arith)
    ];
    same = λ j h. r.same j (omega arith);
    high = r.high;
  }

  step_low :
      {st i : ℕ} {s : Softirq W} (w : W)
      → Round st i s
      → i < 32
      → (j : ℕ) → j < i + 1
      → test_bit (bit_and s.status (all_but i)) j ≡ false
  step_low {st} {i} {s} w r b j h = elim (Bool-cases (j == i)) [
    | inl c ↦ cleared s.status i j (omega arith) ∙ (rw c (ground arith))
    | inr c ↦ cleared_above s.status i j (r.low j (ground arith))
  ]

  step_same :
      {st i : ℕ} {s : Softirq W} (w : W)
      → Round st i s
      → i < 32
      → (j : ℕ) → i + 1 ≤ j
      → test_bit (bit_and s.status (all_but i)) j ≡ test_bit st j
  step_same {st} {i} {s} w r b j h = elim (Bool-cases (ltb j 32)) [
    | inl c ↦
        let d : (j == i) ≡ false = ground arith in
        cleared s.status i j (ground arith) ∙ rw d (ground (arith, r.same j (omega arith)))
    | inr c ↦
        let above : 32 ≤ j = ground arith in
        cleared_above s.status i j (status-above r j (omega arith) above) ∙ sym (r.high j above)
  ]

  step :
      {st i : ℕ} {s : Softirq W} (w : W)
      → Round st i s
      → i < 32
      → Round st (i + 1) (record { status = bit_and s.status (all_but i); world = w })
  step w r b = record { low = step_low w r b; same = step_same w r b; high = r.high }

  status_zero : {st : ℕ} {s : Softirq W} → Round st 32 s → s.status ≡ 0
  status_zero {st} {s} r = eq_of_bits s.status 0 (λ j. bit j ∙ sym (test_bit-zero j))
    where
      bit : (j : ℕ) → test_bit s.status j ≡ false
      bit j = elim (Bool-cases (ltb j 32)) [
        | inl c ↦ r.low j (ground arith)
        | inr c ↦ status-above r j (omega arith) (ground arith)
      ]

  serve-quiet :
      (s : Softirq W) (i : ℕ)
      → serve (quiet f) i s ≡ (
          if test_bit s.status i
          then some (record { status = bit_and s.status (all_but i); world = f i s.world })
          else some s)
  unfolding serve
  serve-quiet s i = rw (bit_and_pow s.status i) (ground arith)

  rounds_lem :
      (n i st : ℕ) (s : Softirq W)
      → Round st i s
      → i + n ≡ 32
      → rounds (quiet f) n i s ≡ some (record { status = 0; world = served f st n i s.world })
  unfolding rounds
  rounds_lem zero i st s r e =
      let r' : Round st 32 s = subst (λ k. Round st k s) (omega arith) r in
      ap (λ z. some (record { status = z; world = s.world })) (status_zero r')
  rounds_lem (suc n) i st s r e = elim (Bool-cases (s.status == 0)) [
    | inl z ↦
        let none_left : served f st (suc n) i s.world ≡ s.world =
          served_none f st (suc n) i s.world (λ j h.
            sym (r.same j h)
            ∙ bit_cong s.status 0 j j ((==_iff s.status 0).0 z) refl
            ∙ test_bit-zero j) in
        rw z (
          ap (λ y. some (record { status = y; world = s.world })) ((==_iff s.status 0).0 z)
          ∙ ap (λ y. some (record { status = 0; world = y })) (sym none_left))
    | inr z ↦ elim (Bool-cases (test_bit s.status i)) [
      | inl b ↦
          rw (z, serve-quiet s i, b, sym (r.same i (omega arith)) ∙ b)
            (rounds_lem n (i + 1) st
              (record { status = bit_and s.status (all_but i); world = f i s.world })
              (step (f i s.world) r (omega arith)) (omega arith))
      | inr b ↦
          rw (z, serve-quiet s i, b, sym (r.same i (omega arith)) ∙ b)
            (rounds_lem n (i + 1) st s (keep r b) (omega arith))
    ]
  ]

  -- With actions that raise nothing and a status of 32 bits, `do_softirq` runs the actions of the
  -- bits that are set, each once and in ascending order, and leaves no bit pending.
  pub do_softirq_lem :
      (s : Softirq W)
      → s.status < 2 ^ 32
      → do_softirq (quiet f) s
        ≡ some (record { status = 0; world = served f s.status 32 0 s.world })
  unfolding do_softirq
  do_softirq_lem s h =
      rounds_lem 32 0 s.status s
        (record {
          low = λ j k. absurd (omega arith);
          same = λ j k. refl;
          high = λ j k. test_bit_above j 32 s.status h k;
        })
        refl

module _ {W : Type 0} where
  -- Where bit i is pending and its action is `action`, the round i runs it once and ends with the
  -- bit i clear, whatever the action raised; the other bits stay as the action left them.
  serve_lem :
      (v : Vector W) (i : ℕ) (s : Softirq W) (action : Softirq W → Softirq W)
      → test_bit s.status i ≡ true
      → v i ≡ some action
      → i < 32
      → (s' : Softirq W) × (serve v i s ≡ some s')
        × (s'.world ≡ (action s).world)
        × (test_bit s'.status i ≡ false)
        × ((j : ℕ) → j < 32 → j ≢ i → test_bit s'.status j ≡ test_bit (action s).status j)
  unfolding serve
  serve_lem v i s action pending known h = (
    record { status = bit_and (action s).status (all_but i); world = (action s).world },
    rw (bit_and_pow s.status i, pending, known),
    refl,
    cleared (action s).status i i h ∙ rw (==_refl i) (ground arith),
    λ j k ne. cleared (action s).status i j k ∙ rw (==_false j i ne) (ground arith),
  )
