-- ===== src/Tests/Devices.antt =====
-- The theorems on kernel/timer.c and softirq.c at concrete states, and runs of the code.
use mine_os.Prelude.{
  ℕ, ◌+◌, ◌*◌, ◌<◌, ◌≡◌, refl, List, [], ◌∷◌, ◌++◌, some, arith, All, if◌then◌else◌, ◌==◌,
}
use mine_os.Links.{list_init, list_add_to_before}
use mine_os.Timer.{Timers, never, do_timer, add_timer}
use mine_os.Timer.Place.{IsPending}
use mine_os.Timer.Fire.{do_timer_sorted, add_timer_holds_back}
use mine_os.Tick.{Tick}
use mine_os.Tests.{scene}
use mine_os.Softirq.{Softirq, do_softirq, set_softirq_status}
use mine_os.Softirq.Serve.{quiet, do_softirq_lem}

-- The timers 30 and 31 are pending, for the times 4 and 9; the time of the timer 32 is 20. Each
-- writes its number at the front of a decimal.
abbrev timers : ℕ → Timers ℕ
timers now = record {
  links =
      list_add_to_before
        (list_add_to_before (list_init (record { prev = λ p. p; next = λ p. p }) 3) 3 30) 3 31;
  expire_jiffies =
      λ t. if t == 3 then never else (if t == 30 then 4 else (if t == 31 then 9 else 20));
  func = λ t w. w * 100 + t;
  jiffies = now;
  world = 0;
}

timers-IsPending : (now : ℕ) → IsPending 3 (timers now) (30 ∷ 31 ∷ [])
unfolding list_add_to_before list_init
timers-IsPending now = record {
  ring = record {
    linked = (refl, refl, (refl, refl, (refl, refl)));
    distinct = ((omega arith, (omega arith, tt)), ((omega arith, tt), (tt, tt)));
  };
  sentinel = refl;
}

do_timer_sorted_example :
    (t' : Timers ℕ) × (ys : List ℕ) × (do_timer 3 3 (timers 5) ≡ some t')
    × IsPending 3 t' ys
    × All (λ y. 5 < (timers 5).expire_jiffies y) ys
    × (30 ∷ [] ++ ys ≡ 30 ∷ 31 ∷ [])
do_timer_sorted_example =
    do_timer_sorted 3 (30 ∷ 31 ∷ []) (timers 5) 3 (timers-IsPending 5) ((omega arith, tt), (tt, tt))
      (omega arith)

add_timer_holds_back_example :
    (t' : Timers ℕ) × (add_timer 3 3 (timers 10) 32 ≡ some t')
    × IsPending 3 t' (32 ∷ 30 ∷ 31 ∷ [])
    × (do_timer 3 3 t' ≡ some t')
add_timer_holds_back_example =
    add_timer_holds_back 3 32 (timers-IsPending 10) (omega arith, (omega arith, (omega arith, tt)))
      (omega arith) (omega arith) (omega arith, (omega arith, tt)) (omega arith)

-- Each action writes its number at the end of a decimal.
abbrev raised : Softirq ℕ
raised = record { status = 0b1001; world = 0 }

do_softirq_lem_example :
    do_softirq (quiet (λ i w. w * 10 + i + 1)) raised ≡ some (record { status = 0; world = 14 })
do_softirq_lem_example = do_softirq_lem (λ i w. w * 10 + i + 1) raised (omega arith)

-- The action of bit 3 raises the bits 3 and 5.
abbrev raising : Softirq ℕ → Softirq ℕ
unfolding set_softirq_status
raising s = set_softirq_status (record s { world = 7 }) 0b101000

-- The timer 30 is due at the time 4.
abbrev before_tick : Tick ℕ
before_tick = record {
  timers = timers 3;
  softirq = record { status = 0; world = 0 };
  sched = scene 6 1;
}
