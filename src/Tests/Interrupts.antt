-- ===== src/Tests/Interrupts.antt =====
-- The theorems on kernel/irq.c and kernel/interrupt.c at a concrete machine: a register is a
-- number, what is written is read, and the calls of handlers are written at the place 100.
use mine_os.Prelude.{
  ℕ, zero, suc, ap, ◌+◌, ◌*◌, ◌<◌, ◌≡◌, refl, ◌≢◌, true, false, not, ◌&&◌, some, none, arith, ltb,
  if◌then◌else◌, ◌==◌,
}
use mine_os.Bits.{test_bit, test_bit_above}
use mine_os.Links.{update}
use mine_os.Softirq.Serve.{served, quiet}
use mine_os.Irq.{Register, Machine, s3c_irqext_mask, s3c_irqext_unmask, s3c_irq_ack}
use mine_os.Irq.Parent.{IsMachine, HasParents, s3c_irqext-HasParents}
use mine_os.Irq.Table.{Table, Controller, Flow, run_handler, ack}
use mine_os.Irq.Flows.{flow_at}
use mine_os.Irq.Dispatch.{then_run, handled_all, is_pending}
use mine_os.Irq.Entry.{World, Kernel, IsSmall, do_irq, do_irq_lem, scheduled}
use mine_os.Tests.{scene}

abbrev index : Register → ℕ
index Register.srcpnd = 0
index Register.intmod = 1
index Register.intmsk = 2
index Register.intpnd = 3
index Register.subsrcpnd = 4
index Register.intsubmsk = 5
index Register.eintmask = 6
index Register.eintpend = 7

abbrev board : Machine (ℕ → ℕ)
board = record { read = λ r d. d (index r); write = λ r v d. update d (index r) v }

abbrev logged : ℕ → (ℕ → ℕ) → ℕ → ℕ
logged irq d = update d 100 (d 100 * 100 + irq)

-- The lines 5, 9 and 12 are pending and line 12 is masked; the sub-interrupts 1, 2 and 10 are
-- pending, and 2 is masked.
abbrev state : ℕ → ℕ
state q =
    if q == 4
    then 0b100_0000_0110
    else (if q == 5 then 0b100 else (if q == 6 then 0x1000 else (if q == 7 then 0x1220 else 0)))

abbrev blank : Table (ℕ → ℕ)
blank _ = record { controller = none; flow = none; handler = none }

abbrev ready : Table (ℕ → ℕ)
ready _ = record {
  controller = some Controller.con_irq;
  flow = some Flow.handle_irq;
  handler = none;
}

-- Of the lines 32 to 35 all but the last are masked, and no main line is.
abbrev three_masked : ℕ → ℕ
three_masked q = if q == 6 then 0x70 else 0

board-IsMachine : IsMachine board
board-IsMachine = record {
  lines_kept = λ v d. refl;
  main_kept = λ v d. refl;
  lines_apart = λ v d. refl;
  main_apart = λ v d. refl;
}

clear_ne_set : false ≢ true
clear_ne_set h = cc

three_masked-HasParents : HasParents board board-IsMachine three_masked
three_masked-HasParents = (
  λ j l. test_bit_above j 24 0x70 (omega arith) l,
  (λ e. absurd (clear_ne_set e), λ f. absurd (clear_ne_set (f 7 (omega arith) (omega arith)))),
  (λ e. absurd (clear_ne_set e), λ f. absurd (clear_ne_set (f 8 (omega arith) (omega arith)))),
)

s3c_irqext-HasParents_example :
    HasParents board board-IsMachine (s3c_irqext_mask board 35 three_masked)
    × HasParents board board-IsMachine (s3c_irqext_unmask board 35 three_masked)
s3c_irqext-HasParents_example =
    s3c_irqext-HasParents board board-IsMachine 35 three_masked (omega arith) (omega arith)
      three_masked-HasParents

-- The registers of `board` with the soft interrupts and the scheduler beside them.
abbrev kernel_board : Machine (Kernel (ℕ → ℕ))
kernel_board = record {
  read = λ r k. k.world.device (index r);
  write =
      λ r v k. record k { world = record (k.world) { device = update k.world.device (index r) v } };
}

-- Every line has a handler that raises the soft interrupt 1.
abbrev served_table : Table (Kernel (ℕ → ℕ))
served_table irq = record {
  controller = some Controller.con_irq;
  flow = some (flow_at irq);
  handler = some (λ _ k. record k { status = 2 });
}

abbrev interrupted : Kernel (ℕ → ℕ)
interrupted = record { status = 0; world = record { device = state; sched = scene 6 1 } }

served_table-IsSmall : IsSmall kernel_board (λ _. 5) 0 served_table 1 2 2
unfolding run_handler ack s3c_irq_ack
served_table-IsSmall irq k k' e h =
    let same : ◌≡◌ {A = ℕ} 2 k'.status = ap (λ o. elim o [ none ↦ 0 | some q ↦ q.status ]) e in
    omega (arith, same)

low_clear : (j : ℕ) → j < 4 → test_bit 0x1220 j ≡ false
low_clear zero h = refl
low_clear (suc zero) h = refl
low_clear (suc (suc zero)) h = refl
low_clear (suc (suc (suc zero))) h = refl
low_clear (suc (suc (suc (suc j)))) h = absurd (omega arith)

abbrev count_up : ℕ → World (ℕ → ℕ) → World (ℕ → ℕ)
count_up i w = record w { device = update w.device 100 (w.device 100 + i) }

do_irq_example :
    (p : ℕ) × ((j : ℕ)
      → j < 32
      → test_bit p j ≡ (is_pending kernel_board 0 served_table interrupted j && not (ltb j 8)))
    × (do_irq kernel_board (λ _. 5) 0 served_table 1 2 2 (quiet count_up) interrupted
        ≡ then_run (handled_all kernel_board 0 served_table p interrupted) (λ k₁.
          scheduled 1 2 2 (record { status = 0; world = served count_up k₁.status 32 0 k₁.world })))
do_irq_example =
    do_irq_lem kernel_board (λ _. 5) 0 served_table 1 2 2 count_up interrupted (λ irq h. refl)
      served_table-IsSmall (omega arith) (omega arith) low_clear refl
