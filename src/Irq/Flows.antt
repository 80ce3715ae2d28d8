-- ===== src/Irq/Flows.antt =====
-- kernel/irq.c: the functions that irq_init puts into `handle_irq` of the descriptors.
use mine_os.Prelude.{
  ℕ, zero, suc, ◌+◌, ◌<◌, ◌==◌, ◌≡◌, ◌∙◌, refl, ◌&&◌, arith, some, if◌then◌else◌, ltb, leb,
  Bool-cases, inl, inr, lt→ltb,
}
use mine_os.Irq.{nr_irqs}
use mine_os.Irq.Table.{
  Table, Controller, Flow, for_range, irq_set_handler, irq_set_controller, init_table,
}

-- The flow function of a line after irq_init.
abbrev pub flow_at : ℕ → Flow
flow_at irq =
    if irq == 9
    then Flow.demux_wdtac97
    else (if irq == 6
        then Flow.demux_cam
        else (if irq == 31
            then Flow.demux_adc
            else (if irq == 15
                then Flow.demux_uart2
                else (if irq == 23
                    then Flow.demux_uart1
                    else (if irq == 28
                        then Flow.demux_uart0
                        else (if irq == 5
                            then Flow.demux_extint8
                            else (if irq == 4 then Flow.demux_extint4t7 else Flow.handle_irq)))))))

-- Every line has the flow function that irq_init gives it.
abbrev pub HasFlows : {D : Type 0} → Table D → Type 0
HasFlows t = (irq : ℕ) → irq < nr_irqs → (t irq).flow ≡ some (flow_at irq)

module _ {D : Type 0} where
  set_handler-flow :
      (f : Flow) (irq : ℕ) (t : Table D) (q : ℕ)
      → (irq_set_handler f irq t q).flow ≡ (if q == irq then some f else (t q).flow)
  unfolding irq_set_handler
  set_handler-flow f irq t q = elim (Bool-cases (irq == q)) [
    | inl e ↦ rw e (ground (arith, e))
    | inr e ↦ rw e (ground (arith, e))
  ]

  handlers-flow :
      (f : Flow) (n lo : ℕ) (t : Table D) (q : ℕ)
      → (for_range (irq_set_handler f) n lo t q).flow
        ≡ (if leb lo q && ltb q (lo + n) then some f else (t q).flow)
  handlers-flow f zero lo t q = ground arith
  handlers-flow f (suc n) lo t q =
      ground
        (arith, handlers-flow f n (lo + 1) (irq_set_handler f lo t) q, set_handler-flow f lo t q)

  set_controller-flow :
      (c : Controller) (irq : ℕ) (t : Table D) (q : ℕ)
      → (irq_set_controller c irq t q).flow ≡ (t q).flow
  unfolding irq_set_controller
  set_controller-flow c irq t q = elim (Bool-cases (irq == q)) [
    | inl e ↦ ground arith
    | inr e ↦ rw e
  ]

  controllers-flow :
      (c : Controller) (n lo : ℕ) (t : Table D) (q : ℕ)
      → (for_range (irq_set_controller c) n lo t q).flow ≡ (t q).flow
  controllers-flow c zero lo t q = refl
  controllers-flow c (suc n) lo t q =
      controllers-flow c n (lo + 1) (irq_set_controller c lo t) q ∙ set_controller-flow c lo t q

  pub init_table-HasFlows : (t : Table D) → HasFlows (init_table t)
  unfolding init_table
  init_table-HasFlows t irq h =
      let t₁ = for_range (irq_set_handler Flow.handle_irq) nr_irqs 0 t in
      let t₂ = for_range (irq_set_controller Controller.con_irq) 32 0 t₁ in
      let t₃ = for_range (irq_set_controller Controller.con_irqext) 20 32 t₂ in
      let t₄ = for_range (irq_set_controller Controller.con_irqext) 15 54 t₃ in
      let t₅ = irq_set_handler Flow.demux_extint4t7 4 t₄ in
      let t₆ = irq_set_handler Flow.demux_extint8 5 t₅ in
      let t₇ = irq_set_handler Flow.demux_uart0 28 t₆ in
      let t₈ = irq_set_handler Flow.demux_uart1 23 t₇ in
      let t₉ = irq_set_handler Flow.demux_uart2 15 t₈ in
      let t₁₀ = irq_set_handler Flow.demux_adc 31 t₉ in
      let t₁₁ = irq_set_handler Flow.demux_cam 6 t₁₀ in
      set_handler-flow Flow.demux_wdtac97 9 t₁₁ irq
      ∙ rw
          (
            set_handler-flow Flow.demux_cam 6 t₁₀ irq,
            set_handler-flow Flow.demux_adc 31 t₉ irq,
            set_handler-flow Flow.demux_uart2 15 t₈ irq,
            set_handler-flow Flow.demux_uart1 23 t₇ irq,
            set_handler-flow Flow.demux_uart0 28 t₆ irq,
            set_handler-flow Flow.demux_extint8 5 t₅ irq,
            set_handler-flow Flow.demux_extint4t7 4 t₄ irq,
            controllers-flow Controller.con_irqext 15 54 t₃ irq,
            controllers-flow Controller.con_irqext 20 32 t₂ irq,
            controllers-flow Controller.con_irq 32 0 t₁ irq,
            handlers-flow Flow.handle_irq nr_irqs 0 t irq,
            lt→ltb irq nr_irqs h,
          )
          (ground arith)
