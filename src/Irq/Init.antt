-- ===== src/Irq/Init.antt =====
-- kernel/irq.c: the controllers that irq_init gives to the lines.
use mine_os.Prelude.{
  ℕ, zero, suc, ◌+◌, ◌==◌, ◌≡◌, ◌∙◌, refl, ◌&&◌, arith, some, if◌then◌else◌, ltb, leb, Bool-cases,
  inl, inr,
}
use mine_os.Irq.{nr_irqs}
use mine_os.Irq.Table.{
  Table, Controller, Flow, for_range, irq_set_handler, irq_set_controller, init_table,
}

module _ {D : Type 0} where
  set_handler-controller :
      (f : Flow) (irq : ℕ) (t : Table D) (q : ℕ)
      → (irq_set_handler f irq t q).controller ≡ (t q).controller
  unfolding irq_set_handler
  set_handler-controller f irq t q = elim (Bool-cases (irq == q)) [
    | inl e ↦ ground arith
    | inr e ↦ rw e
  ]

  handlers-controller :
      (f : Flow) (n lo : ℕ) (t : Table D) (q : ℕ)
      → (for_range (irq_set_handler f) n lo t q).controller ≡ (t q).controller
  handlers-controller f zero lo t q = refl
  handlers-controller f (suc n) lo t q =
      handlers-controller f n (lo + 1) (irq_set_handler f lo t) q ∙ set_handler-controller f lo t q

  set_controller-controller :
      (c : Controller) (irq : ℕ) (t : Table D) (q : ℕ)
      → (irq_set_controller c irq t q).controller ≡ (if irq == q then some c else (t q).controller)
  unfolding irq_set_controller
  set_controller-controller c irq t q = elim (Bool-cases (irq == q)) [ inl e ↦ rw e | inr e ↦ rw e ]

  controllers-controller :
      (c : Controller) (n lo : ℕ) (t : Table D) (q : ℕ)
      → (for_range (irq_set_controller c) n lo t q).controller
        ≡ (if leb lo q && ltb q (lo + n) then some c else (t q).controller)
  controllers-controller c zero lo t q = ground arith
  controllers-controller c (suc n) lo t q = ground (
    arith,
    controllers-controller c n (lo + 1) (irq_set_controller c lo t) q,
    set_controller-controller c lo t q,
  )

  -- The three loops over the controllers.
  controllers_set :
      (irq : ℕ) (t₁ t : Table D)
      → (t₁ irq).controller ≡ (t irq).controller
      → (for_range
          (irq_set_controller Controller.con_irqext)
          15
          54
          (for_range
            (irq_set_controller Controller.con_irqext)
            20
            32
            (for_range (irq_set_controller Controller.con_irq) 32 0 t₁))
          irq).controller
        ≡ (if ltb irq 32
            then some Controller.con_irq
            else (if ltb irq 52
                then some Controller.con_irqext
                else (if leb 54 irq && ltb irq 69
                    then some Controller.con_irqext
                    else (t irq).controller)))
  controllers_set irq t₁ t e =
      let t₂ = for_range (irq_set_controller Controller.con_irq) 32 0 t₁ in
      let t₃ = for_range (irq_set_controller Controller.con_irqext) 20 32 t₂ in
      controllers-controller Controller.con_irqext 15 54 t₃ irq
      ∙ rw
          (
            controllers-controller Controller.con_irqext 20 32 t₂ irq,
            controllers-controller Controller.con_irq 32 0 t₁ irq,
            e,
          )
          (ground arith)

  -- irq_init gives the main lines the controller con_irq, and the external lines and the
  -- sub-interrupts 54 to 68 the controller con_irqext; no line gets con_irqsub.
  init_table_lem :
      (t : Table D) (irq : ℕ)
      → (init_table t irq).controller ≡ (
          if ltb irq 32
          then some Controller.con_irq
          else (if ltb irq 52
              then some Controller.con_irqext
              else (if leb 54 irq && ltb irq 69
                  then some Controller.con_irqext
                  else (t irq).controller)))
  unfolding init_table
  init_table_lem t irq =
      let t₁ = for_range (irq_set_handler Flow.handle_irq) nr_irqs 0 t in
      let t₂ = for_range (irq_set_controller Controller.con_irq) 32 0 t₁ in
      let t₃ = for_range (irq_set_controller Controller.con_irqext) 20 32 t₂ in
      let t₄ = for_range (irq_set_controller Controller.con_irqext) 15 54 t₃ in
      let t₅ = irq_set_handler Flow.demux_extint4t7 4 t₄ in
      let t₆ = irq_set_handler Flow.demux_extint8 5 t₅ in
      let t₇ = irq_set_handler Flow.demux_uart0 28 t₆ in
      let t₈ = irq_set_handler Flow.demux_uart1 23 t₇ in
      let t₉ = irq_set_handler Flow.demux_uart2 15 t₈ in
      let t₁₀ = irq_set_handler Flow.demux_adc 31 t₉ in
      let t₁₁ = irq_set_handler Flow.demux_cam 6 t₁₀ in
      set_handler-controller Flow.demux_wdtac97 9 t₁₁ irq
      ∙ set_handler-controller Flow.demux_cam 6 t₁₀ irq
      ∙ set_handler-controller Flow.demux_adc 31 t₉ irq
      ∙ set_handler-controller Flow.demux_uart2 15 t₈ irq
      ∙ set_handler-controller Flow.demux_uart1 23 t₇ irq
      ∙ set_handler-controller Flow.demux_uart0 28 t₆ irq
      ∙ set_handler-controller Flow.demux_extint8 5 t₅ irq
      ∙ set_handler-controller Flow.demux_extint4t7 4 t₄ irq
      ∙ controllers_set irq t₁ t (handlers-controller Flow.handle_irq nr_irqs 0 t irq)
