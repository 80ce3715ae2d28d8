-- ===== src/Irq/Table.antt =====
-- kernel/irq.c and kernel/interrupt.c: the table interrupt_desc, which irq_init fills, the way from
-- an interrupt to its handler, and request_irq and free_irq.
use mine_os.Prelude.{
  ℕ, zero, suc, ◌+◌, ◌<◌, ◌≡◌, ◌≢◌, ◌∙◌, ap, Option, none, some, if◌then◌else◌, ltb, lt→ltb,
}
use mine_os.Links.{update}
use mine_os.Links.Splice.{update_self, update_ne}
use mine_os.Irq.{
  Register, Machine, nr_irqs, s3c_irq_ack, s3c_irq_mask, s3c_irq_unmask, s3c_irqext_ack,
  s3c_irqext_mask, s3c_irqext_unmask, s3c_irqsub_ack, s3c_irqsub_mask, s3c_irqsub_unmask,
}

pub data Controller : Type 0 where
  con_irq : Controller
  con_irqsub : Controller
  con_irqext : Controller

-- The functions that `handle_irq` of a descriptor may point to.
pub data Flow : Type 0 where
  handle_irq : Flow
  demux_extint4t7 : Flow
  demux_extint8 : Flow
  demux_uart0 : Flow
  demux_uart1 : Flow
  demux_uart2 : Flow
  demux_adc : Flow
  demux_cam : Flow
  demux_wdtac97 : Flow

-- One irq_desc. A handler that is `none` is dummy_isr, which fails an assertion.
pub record Desc (D : Type 0) : Type 0 where
  pub controller : Option Controller
  pub flow : Option Flow
  pub handler : Option (ℕ → D → D)

abbrev pub Table : Type 0 → Type 0
Table D = ℕ → Desc D

-- for (irqno = lo; irqno < lo + n; irqno++)
abbrev pub for_range {ℓ} : {A : Type ℓ} → (ℕ → A → A) → ℕ → ℕ → A → A
for_range f zero lo a = a
for_range f (suc n) lo a = for_range f n (lo + 1) (f lo a)

module _ {D : Type 0} where
  unfoldable pub irq_set_handler : Flow → ℕ → Table D → Table D
  irq_set_handler f irq t = update t irq (record (t irq) { flow = some f })

  unfoldable pub irq_set_controller : Controller → ℕ → Table D → Table D
  irq_set_controller c irq t = update t irq (record (t irq) { controller = some c })

  -- The part of irq_init that fills the table.
  unfoldable pub init_table : Table D → Table D
  unfolding irq_set_handler irq_set_controller
  init_table t =
      let t₁ = for_range (irq_set_handler Flow.handle_irq) nr_irqs 0 t in
      let t₂ = for_range (irq_set_controller Controller.con_irq) 32 0 t₁ in
      let t₃ = for_range (irq_set_controller Controller.con_irqext) 20 32 t₂ in
      let t₄ = for_range (irq_set_controller Controller.con_irqext) 15 54 t₃ in
      let t₅ = irq_set_handler Flow.demux_extint4t7 4 t₄ in
      let t₆ = irq_set_handler Flow.demux_extint8 5 t₅ in
      let t₇ = irq_set_handler Flow.demux_uart0 28 t₆ in
      let t₈ = irq_set_handler Flow.demux_uart1 23 t₇ in
      let t₉ = irq_set_handler Flow.demux_uart2 15 t₈ in
      let t₁₀ = irq_set_handler Flow.demux_adc 31 t₉ in
      let t₁₁ = irq_set_handler Flow.demux_cam 6 t₁₀ in irq_set_handler Flow.demux_wdtac97 9 t₁₁

-- `parentbit` is what s3c_irqsub_unmask finds on the stack. `none` is a failed assertion.
module _ {D : Type 0} (m : Machine D) (parentbit : ℕ) where
  unfoldable pub irq_init : Table D → D → Table D × D
  irq_init t d =
      let d₁ = m.write Register.eintmask 0xffff_f0 d in
      let d₂ = m.write Register.intmod 0 d₁ in
      let d₃ = m.write Register.intmsk 0xffff_ffff d₂ in
      let d₄ = m.write Register.intsubmsk 0xffff d₃ in
      let d₅ = m.write Register.eintpend 0xffff_f0 d₄ in
      let d₆ = m.write Register.srcpnd 0xffff_ffff d₅ in
      let d₇ = m.write Register.intpnd 0xffff_ffff d₆ in
      (init_table t, m.write Register.subsrcpnd 0xffff_ffff d₇)

  unfoldable pub ack : Controller → ℕ → D → Option D
  ack Controller.con_irq irq d = some (s3c_irq_ack m irq d)
  ack Controller.con_irqsub irq d = s3c_irqsub_ack m irq d
  ack Controller.con_irqext irq d = some (s3c_irqext_ack m irq d)

  unfoldable pub mask : Controller → ℕ → D → Option D
  mask Controller.con_irq irq d = some (s3c_irq_mask m irq d)
  mask Controller.con_irqsub irq d = s3c_irqsub_mask m irq d
  mask Controller.con_irqext irq d = some (s3c_irqext_mask m irq d)

  unfoldable pub unmask : Controller → ℕ → D → D
  unmask Controller.con_irq irq d = s3c_irq_unmask m irq d
  unmask Controller.con_irqsub irq d = s3c_irqsub_unmask m parentbit irq d
  unmask Controller.con_irqext irq d = s3c_irqext_unmask m irq d

  -- The flow function `handle_irq`: the handler, and then the acknowledgement.
  unfoldable pub run_handler : Table D → ℕ → D → Option D
  run_handler t irq d = elim ((t irq).handler) [
    | none ↦ none
    | some handler ↦ elim ((t irq).controller) [
      | none ↦ some (handler irq d)
      | some c ↦ ack c irq (handler irq d)
    ]
  ]

  unfoldable pub unmask_irq : Table D → ℕ → D → Option D
  unmask_irq t irq d = elim ((t irq).controller) [ none ↦ none | some c ↦ some (unmask c irq d) ]

  unfoldable pub mask_irq : Table D → ℕ → D → Option D
  mask_irq t irq d = elim ((t irq).controller) [ none ↦ none | some c ↦ mask c irq d ]

  unfoldable pub request_irq : ℕ → (ℕ → D → D) → Table D → D → Option (Table D × D)
  request_irq irq handler t d =
      let t' = update t irq (record (t irq) { handler = some handler }) in
      if ltb irq nr_irqs
      then elim ((t irq).handler) [
        | none ↦ elim (unmask_irq t' irq d) [ none ↦ none | some d' ↦ some (t', d') ]
        | some h ↦ none
      ]
      else none

  unfoldable pub free_irq : ℕ → Table D → D → Option (Table D × D)
  free_irq irq t d =
      if ltb irq nr_irqs
      then elim (mask_irq t irq d) [
        | none ↦ none
        | some d' ↦ some (update t irq (record (t irq) { handler = none }), d')
      ]
      else none

  run_handler_at :
      (t : Table D) (irq : ℕ) (e : D) (h : ℕ → D → D) (c : Controller)
      → (t irq).handler ≡ some h
      → (t irq).controller ≡ some c
      → run_handler t irq e ≡ ack c irq (h irq e)
  unfolding run_handler
  run_handler_at t irq e h c p q = rw (run_handler, p, q)

  run_handler-none :
      (t : Table D) (irq : ℕ) (e : D) → (t irq).handler ≡ none → run_handler t irq e ≡ none
  unfolding run_handler
  run_handler-none t irq e p = rw (run_handler, p)

  unmask_irq_at :
      (t : Table D) (irq : ℕ) (d : D) (c : Controller)
      → (t irq).controller ≡ some c
      → unmask_irq t irq d ≡ some (unmask c irq d)
  unfolding unmask_irq
  unmask_irq_at t irq d c p = rw (unmask_irq, p)

  mask_irq_at :
      (t : Table D) (irq : ℕ) (d d' : D) (c : Controller)
      → (t irq).controller ≡ some c
      → mask c irq d ≡ some d'
      → mask_irq t irq d ≡ some d'
  unfolding mask_irq
  mask_irq_at t irq d d' c p q = rw (mask_irq, p, q)

  request_taken :
      (irq : ℕ) (h h' : ℕ → D → D) (t : Table D) (d : D)
      → irq < nr_irqs
      → (t irq).handler ≡ some h
      → request_irq irq h' t d ≡ none
  unfolding request_irq
  request_taken irq h h' t d b p = rw (lt→ltb irq nr_irqs b, p)

  -- On a line with no handler and a controller, request_irq installs the handler and unmasks the
  -- line; the interrupt then runs the handler, a second request fails, and the other lines keep
  -- their descriptors.
  request_irq_lem :
      (irq : ℕ) (h h' : ℕ → D → D) (c : Controller) (t : Table D) (d : D)
      → irq < nr_irqs
      → (t irq).handler ≡ none
      → (t irq).controller ≡ some c
      → (t' : Table D) × (request_irq irq h t d ≡ some (t', unmask c irq d))
        × ((e : D) → run_handler t' irq e ≡ ack c irq (h irq e))
        × ((e : D) → request_irq irq h' t' e ≡ none)
        × ((q : ℕ) → irq ≢ q → t' q ≡ t q)
  unfolding request_irq
  request_irq_lem irq h h' c t d b free con =
      let t' = update t irq (record (t irq) { handler = some h }) in
      let at : t' irq ≡ record (t irq) { handler = some h } = update_self t irq _ in
      let has : (t' irq).handler ≡ some h = ap (λ (x : Desc D). x.handler) at in
      let con' : (t' irq).controller ≡ (t irq).controller = ap (λ (x : Desc D). x.controller) at in
      (
        t',
        rw (lt→ltb irq nr_irqs b, free, unmask_irq_at t' irq d c (con' ∙ con)),
        λ e. run_handler_at t' irq e h c has (con' ∙ con),
        λ e. request_taken irq h h' t' e b has,
        λ q ne. update_ne t irq _ q ne,
      )

  -- After free_irq, for a line whose controller has no assertion to fail, the interrupt has no
  -- handler, and the line can be requested again.
  free_irq_lem :
      (irq : ℕ) (h : ℕ → D → D) (c : Controller) (t : Table D) (d d' : D)
      → irq < nr_irqs
      → (t irq).controller ≡ some c
      → mask c irq d ≡ some d'
      → (t' : Table D) × (free_irq irq t d ≡ some (t', d'))
        × ((e : D) → run_handler t' irq e ≡ none)
        × ((e : D) → (t'' : Table D) × (request_irq irq h t' e ≡ some (t'', unmask c irq e)))
        × ((q : ℕ) → irq ≢ q → t' q ≡ t q)
  unfolding free_irq
  free_irq_lem irq h c t d d' b con ok =
      let t' = update t irq (record (t irq) { handler = none }) in
      let at : t' irq ≡ record (t irq) { handler = none } = update_self t irq _ in
      (
        t',
        rw (lt→ltb irq nr_irqs b, mask_irq_at t irq d d' c con ok),
        λ e. run_handler-none t' irq e (ap (λ (x : Desc D). x.handler) at),
        λ e.
            let (t'', done, r₁, r₂, r₃) =
              request_irq_lem irq h h c t' e b (ap (λ (x : Desc D). x.handler) at)
                (ap (λ (x : Desc D). x.controller) at ∙ con) in
            (t'', done),
        λ q ne. update_ne t irq _ q ne,
      )
