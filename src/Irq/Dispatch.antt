-- ===== src/Irq/Dispatch.antt =====
-- kernel/irq.c: generic_handle_irq with the demultiplexers that call it.
-- handle_irq gets the descriptor that it is meant to get.
use mine_os.Prelude.{
  ℕ, zero, suc, ◌+◌, ◌^◌, ◌<◌, ◌≤◌, ◌≡◌, ◌∙◌, refl, ap, Bool, true, false, not, ◌&&◌, arith, Option,
  none, some, if◌then◌else◌, Bool-cases, inl, inr, ltb, lt→ltb,
}
use mine_os.Bits.{test_bit}
use mine_os.Softirq.Serve.{served}
use mine_os.Irq.{Register, Machine, nr_irqs, extint_off}
use mine_os.Irq.Demux.{
  s3c_irq_demux_extint8, s3c_irq_demux_extint4t7, s3c_irq_demux_adc, s3c_irq_demux_cam,
  s3c_irq_demux_wdtac97, s3c_irq_demux_uart0, s3c_irq_demux_uart1, s3c_irq_demux_uart2, handler_of,
}
use mine_os.Irq.Pending.{s3c_irq_demux_extint8_lem, s3c_irq_demux_extint4t7_lem}
use mine_os.Irq.Table.{Table, Flow, run_handler, ack}
use mine_os.Irq.Flows.{flow_at, HasFlows}

-- After a failed assertion the machine is `none`, and stays so.
abbrev pub or_failed : {D : Type 0} → Machine D → Machine (Option D)
or_failed m = record {
  read = λ r o. elim o [ none ↦ 0 | some d ↦ m.read r d ];
  write = λ r v o. elim o [ none ↦ none | some d ↦ some (m.write r v d) ];
}

abbrev pub then_run : {C D : Type 0} → Option C → (C → Option D) → Option D
then_run o f = elim o [ none ↦ none | some d ↦ f d ]

-- The loops of the demultiplexers over 32 lines run on this fuel.
abbrev pub all_lines : ℕ
all_lines = 33

module _ {D : Type 0} (m : Machine D) (parentbit : ℕ) (t : Table D) where
  -- desc->handle_irq(irq), where `call` is generic_handle_irq.
  unfoldable pub call_flow : (ℕ → Option D → Option D) → Flow → ℕ → D → Option D
  call_flow call Flow.handle_irq irq d = run_handler m parentbit t irq d
  call_flow call Flow.demux_extint4t7 irq d =
      then_run (s3c_irq_demux_extint4t7 (or_failed m) call all_lines (some d)) (λ o. o)
  call_flow call Flow.demux_extint8 irq d =
      then_run (s3c_irq_demux_extint8 (or_failed m) call all_lines (some d)) (λ o. o)
  call_flow call Flow.demux_uart0 irq d = s3c_irq_demux_uart0 (or_failed m) call (some d)
  call_flow call Flow.demux_uart1 irq d = s3c_irq_demux_uart1 (or_failed m) call (some d)
  call_flow call Flow.demux_uart2 irq d = s3c_irq_demux_uart2 (or_failed m) call (some d)
  call_flow call Flow.demux_adc irq d = s3c_irq_demux_adc (or_failed m) call (some d)
  call_flow call Flow.demux_cam irq d = s3c_irq_demux_cam (or_failed m) call (some d)
  call_flow call Flow.demux_wdtac97 irq d = s3c_irq_demux_wdtac97 (or_failed m) call (some d)

  -- `none` is a failed assertion, the call of a null pointer, or a nesting deeper than `depth`. The
  -- result -1 for a line that is not in the table is not used by any caller.
  unfoldable pub generic_handle_irq : ℕ → ℕ → Option D → Option D
  generic_handle_irq zero irq o = none
  generic_handle_irq (suc depth) irq none = none
  generic_handle_irq (suc depth) irq (some d) =
      let call = generic_handle_irq depth in
      if ltb irq nr_irqs
      then elim ((t irq).flow) [ none ↦ none | some f ↦ call_flow call f irq d ]
      else some d

  -- The handler of a line that has no demultiplexer, followed by its acknowledgement.
  abbrev pub handled : ℕ → Option D → Option D
  handled irq o = then_run o (λ d. then_run ((t irq).handler) (λ handler.
      elim ((t irq).controller) [
        | none ↦ some (handler irq d)
        | some c ↦ ack m parentbit c irq (handler irq d)
      ]))

  handled_lem :
      (depth irq : ℕ) (o : Option D)
      → HasFlows t
      → 32 ≤ irq
      → irq < nr_irqs
      → generic_handle_irq (suc depth) irq o ≡ handled irq o
  unfolding generic_handle_irq call_flow run_handler
  handled_lem depth irq none f l h = refl
  handled_lem depth irq (some d) f l h =
      let plain : flow_at irq ≡ Flow.handle_irq = ground arith in
      rw (generic_handle_irq, lt→ltb irq nr_irqs h, f irq h ∙ ap some plain) refl

  served-map :
      (f g : ℕ → Option D → Option D) (p n i : ℕ) (o : Option D)
      → ((j : ℕ) → j < i + n → test_bit p j ≡ true → (w : Option D) → f j w ≡ g j w)
      → served f p n i o ≡ served g p n i o
  served-map f g p zero i o h = refl
  served-map f g p (suc n) i o h =
      let rest : (w : Option D) → served f p n (i + 1) w ≡ served g p n (i + 1) w =
        λ w. served-map f g p n (i + 1) w (λ j k. h j (omega (arith, k))) in
      elim (Bool-cases (test_bit p i)) [
        | inl e ↦ rw e (rest (f i o) ∙ ap (served g p n (i + 1)) (h i (omega arith) e o))
        | inr e ↦ rw e (rest o)
      ]

  -- The external line behind bit j is pending and not masked.
  abbrev pub is_pending : D → ℕ → Bool
  is_pending d j =
      test_bit (m.read Register.eintpend d) j && not (test_bit (m.read Register.eintmask d) j)

  -- The handlers of the external lines behind the bits of p, from the lowest on.
  abbrev pub handled_all : ℕ → D → Option D
  handled_all p d = served (λ j. handled (j + extint_off)) p 32 0 (some d)

  flow_high :
      (depth : ℕ) (d : D)
      → HasFlows t
      → generic_handle_irq (suc depth) 5 (some d)
        ≡ then_run
            (s3c_irq_demux_extint8 (or_failed m) (generic_handle_irq depth) all_lines (some d))
            (λ o. o)
  unfolding generic_handle_irq call_flow
  flow_high depth d f = rw (generic_handle_irq, f 5 (omega arith)) refl

  flow_low :
      (depth : ℕ) (d : D)
      → HasFlows t
      → generic_handle_irq (suc depth) 4 (some d)
        ≡ then_run
            (s3c_irq_demux_extint4t7 (or_failed m) (generic_handle_irq depth) all_lines (some d))
            (λ o. o)
  unfolding generic_handle_irq call_flow
  flow_low depth d f = rw (generic_handle_irq, f 4 (omega arith)) refl

  all_handled :
      (depth p : ℕ) (d : D)
      → HasFlows t
      → ((j : ℕ) → j < 32 → test_bit p j ≡ true → 4 ≤ j)
      → served (handler_of (or_failed m) (generic_handle_irq (suc depth))) p 32 0 (some d)
        ≡ handled_all p d
  all_handled depth p d f low = served-map _ _ p 32 0 (some d) (λ j h e w.
      let l = low j h e in handled_lem depth (j + extint_off) w f (omega arith) (omega arith))

  -- In a table with the flow functions of irq_init, generic_handle_irq on the main line 5 ends with
  -- two levels of calls: it runs the handlers of the external lines behind those of the bits from 8
  -- on that are pending and not masked when it starts, each followed by its acknowledgement, from
  -- the lowest bit on, where a failed assertion ends the run; on the main line 4 it does the same
  -- for the bits 4 to 7, where the bits 0 to 3 of EINTPEND, which stand for no line, are clear.
  pub generic_handle_irq_lem :
      (depth : ℕ) (d : D)
      → HasFlows t
      → m.read Register.eintpend d < 2 ^ 32
      → ((j : ℕ) → j < 4 → test_bit (m.read Register.eintpend d) j ≡ false)
      → ((p : ℕ) × ((j : ℕ) → j < 32 → test_bit p j ≡ (is_pending d j && not (ltb j 8)))
          × (generic_handle_irq (suc (suc depth)) 5 (some d) ≡ handled_all p d))
        × ((p : ℕ) × ((j : ℕ) → j < 32 → test_bit p j ≡ (is_pending d j && ltb j 8))
            × (generic_handle_irq (suc (suc depth)) 4 (some d) ≡ handled_all p d))
  generic_handle_irq_lem depth d f small low =
      let call = generic_handle_irq (suc depth) in
      let (p, bits, run) =
        s3c_irq_demux_extint8_lem (or_failed m) call (some d) all_lines small (omega arith) in
      let (q, bits', run') =
        s3c_irq_demux_extint4t7_lem (or_failed m) call (some d) all_lines small (omega arith) in
      (
        (
          p,
          bits,
          flow_high (suc depth) d f
              ∙ ap (λ r. then_run r (λ o. o)) run
              ∙ all_handled depth p d f (λ j h e. ground (arith, bits j h, e)),
        ),
        (
          q,
          bits',
          flow_low (suc depth) d f
              ∙ ap (λ r. then_run r (λ o. o)) run'
              ∙ all_handled depth q d f (λ j h e. elim (Bool-cases (ltb j 4)) [
                | inl c ↦ absurd (ground (arith, bits' j h, e, low j (ground (arith, c))))
                | inr c ↦ ground (arith, c)
              ]),
        ),
      )
