-- ===== src/Irq/Entry.antt =====
-- kernel/interrupt.c: do_irq, which the assembly of init/head.S calls on an interrupt.
use mine_os.Prelude.{
  ℕ, zero, suc, ◌+◌, ◌^◌, ◌<◌, ◌≡◌, ◌∙◌, refl, ap, false, not, ◌&&◌, arith, Option, none, some,
  if◌then◌else◌, Bool-cases, inl, inr, ltb, leb,
}
use mine_os.Bits.{test_bit}
use mine_os.Sched.{Sched, schedule}
use mine_os.Softirq.{Softirq, Vector, do_softirq}
use mine_os.Softirq.Serve.{served, quiet, do_softirq_lem}
use mine_os.Irq.{Register, Machine, extint_off, irq_adcparent}
use mine_os.Irq.Table.{Table}
use mine_os.Irq.Flows.{HasFlows}
use mine_os.Irq.Dispatch.{
  generic_handle_irq, then_run, handled, handled_all, is_pending, generic_handle_irq_lem,
}

-- What the handlers and the soft interrupts change, with the machine in `device`.
pub record World (X : Type 0) : Type 0 where
  pub device : X
  pub sched : Sched

abbrev pub Kernel : Type 0 → Type 0
Kernel X = Softirq (World X)

-- The calls nest three deep at most: line 4, a line 28 to 31 behind a bit 0 to 3, a sub-interrupt.
abbrev pub call_depth : ℕ
call_depth = 3

-- `schedule` with its queue, the idle task and its fuel.
abbrev pub scheduled : {X : Type 0} → ℕ → ℕ → ℕ → Kernel X → Option (Kernel X)
scheduled queue init_task fuel k =
    then_run (schedule queue init_task fuel k.world.sched)
      (λ s. some (record k { world = record (k.world) { sched = s } }))

-- `intoffset` reads the register INTOFFSET.
module _ {X : Type 0} (m : Machine (Kernel X)) (intoffset : Kernel X → ℕ) (parentbit : ℕ)
    (t : Table (Kernel X)) (queue init_task fuel : ℕ) where
  unfoldable pub do_irq : Vector (World X) → Kernel X → Option (Kernel X)
  do_irq v k =
      if leb (intoffset k) irq_adcparent
      then then_run (generic_handle_irq m parentbit t call_depth (intoffset k) (some k))
          (λ k₁. then_run (do_softirq v k₁) (scheduled queue init_task fuel))
      else none

  -- No handler, with its acknowledgement, raises a soft interrupt from 32 on.
  abbrev pub IsSmall : Type 0
  IsSmall =
      (irq : ℕ) (k k' : Kernel X)
      → handled m parentbit t irq (some k) ≡ some k'
      → k.status < 2 ^ 32
      → k'.status < 2 ^ 32

  -- Where there is a result, its status has 32 bits.
  abbrev Small : Option (Kernel X) → Type 0
  Small o = (k : Kernel X) → o ≡ some k → k.status < 2 ^ 32

  abbrev status_of : Option (Kernel X) → ℕ
  status_of o = elim o [ none ↦ 0 | some k ↦ k.status ]

  handled-Small :
      (irq : ℕ) (o : Option (Kernel X)) → IsSmall → Small o → Small (handled m parentbit t irq o)
  handled-Small irq none h s = s
  handled-Small irq (some k₀) h s = λ k e. h irq k₀ k e (s k₀ refl)

  served-Small :
      (p n i : ℕ) (o : Option (Kernel X))
      → IsSmall
      → Small o
      → Small (served (λ j. handled m parentbit t (j + extint_off)) p n i o)
  served-Small p zero i o h s = s
  served-Small p (suc n) i o h s = served-Small p n (i + 1) _ h (elim (Bool-cases (test_bit p i)) [
    | inl e ↦ rw e (handled-Small (i + extint_off) o h s)
    | inr e ↦ rw e s
  ])

  after :
      (f : ℕ → World X → World X) (o : Option (Kernel X))
      → Small o
      → then_run o (λ k₁. then_run (do_softirq (quiet f) k₁) (scheduled queue init_task fuel))
        ≡ then_run o (λ k₁.
          scheduled queue init_task fuel
            (record { status = 0; world = served f k₁.status 32 0 k₁.world }))
  after f none s = refl
  after f (some k) s =
      ap (λ r. then_run r (scheduled queue init_task fuel)) (do_softirq_lem f k (s k refl))

  -- On an interrupt of the main line 5, do_irq runs the handlers of the external lines from 8 on
  -- that are pending and not masked, from the lowest on and each followed by its acknowledgement,
  -- then the soft interrupts that were raised, by these handlers or before, each once from the
  -- lowest on and until none is pending, and then schedule on what these left. This holds for a
  -- table with the flow functions of irq_init, soft interrupts that raise none themselves, and
  -- handlers that raise none above 31.
  pub do_irq_lem :
      (f : ℕ → World X → World X) (k : Kernel X)
      → HasFlows t
      → IsSmall
      → k.status < 2 ^ 32
      → m.read Register.eintpend k < 2 ^ 32
      → ((j : ℕ) → j < 4 → test_bit (m.read Register.eintpend k) j ≡ false)
      → intoffset k ≡ 5
      → (p : ℕ) × ((j : ℕ)
          → j < 32
          → test_bit p j ≡ (is_pending m parentbit t k j && not (ltb j 8)))
        × (do_irq (quiet f) k
            ≡ then_run (handled_all m parentbit t p k) (λ k₁.
              scheduled queue init_task fuel
                (record { status = 0; world = served f k₁.status 32 0 k₁.world })))
  unfolding do_irq
  do_irq_lem f k flows small low e z at =
      let (p, bits, run) = (generic_handle_irq_lem m parentbit t 1 k flows e z).0 in
      let start : Small (some k) = λ k' i. omega (arith, low, ap status_of i) in
      let next : Kernel X → Option (Kernel X) =
        λ k₁. then_run (do_softirq (quiet f) k₁) (scheduled queue init_task fuel) in
      (
        p,
        bits,
        ap
              (λ q.
                if leb q irq_adcparent
                then then_run (generic_handle_irq m parentbit t call_depth q (some k)) next
                else none)
              at
            ∙ ap (λ o. then_run o next) run
            ∙ after f _ (served-Small p 32 0 (some k) small start),
      )
