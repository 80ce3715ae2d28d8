-- ===== src/Sched/Choice.antt =====
-- kernel/schedule.c: which task `schedule` lets run, and what becomes of the others.
use mathlib.Core.List.{Perm}
use mathlib.Core.List.Perm
use native.Mathlib.Decide.{dec_le}
use mine_os.Prelude.{
  ℕ, ◌≤◌, ◌<◌, ◌≡◌, refl, sym, ◌≢◌, List, ◌∷◌, some, arith, length, false, ==_false, subst, ◌∙◌,
  le→leb, ◌==◌, ap,
}
use mine_os.Links.{list_del}
use mine_os.Sched.{
  Sched, vrun_time_of, task_running, clear_need_schedule, dispatch, schedule, switch_to,
}
use mine_os.Sched.Queue.{IsQueue, enqueue, inserted, removed, enqueue-perm}
use mine_os.Sched.Dispatch.{
  IsFair, Running, sliced, vrun_sliced, current_sliced, state_sliced, schedule-dispatch,
  IsQueue-sliced, ready, refill_same, dispatch_switch, dispatch_stay,
}

module _ (queue init_task : ℕ) where
  -- With a runnable task running that is not the idle task, and a queue that is not empty,
  -- `schedule` ends, the tasks are those there were, each once, none that waits is due before the
  -- one that runs, and no virtual run time is changed.
  pub schedule-IsFair :
      {s : Sched} {x : ℕ} {xs : List ℕ} (fuel : ℕ)
      → Running queue init_task s x xs
      → (s.task s.current).state ≡ task_running
      → s.current ≢ init_task
      → length xs < fuel
      → (s' : Sched) × (ys : List ℕ) × (schedule queue init_task fuel s ≡ some s')
        × IsFair queue init_task s' ys
        × Perm (s'.current ∷ ys) (s.current ∷ x ∷ xs)
        × (vrun_time_of s' ≡ vrun_time_of s)
  unfolding switch_to
  schedule-IsFair {s} {x} {xs} fuel r run ne enough =
      let t = sliced queue init_task s x xs in
      let c = current_sliced queue init_task s x xs in
      let runs =
        state_sliced queue init_task s x xs t.current ∙ ap (λ p. (s.task p).state) c ∙ run in
      elim (dec_le (vrun_time_of t x) (vrun_time_of t t.current)) [
        | yes h ↦
            let o =
              dispatch_switch queue init_task fuel (ready queue init_task r) runs
                (λ e. ne (sym c ∙ e)) enough h in
            (
              switch_to (inserted queue init_task t t.current xs) x,
              enqueue queue init_task t t.current xs,
              schedule-dispatch queue init_task fuel r.valid ∙ o.0,
              o.1,
              subst (λ d. Perm (x ∷ enqueue queue init_task t t.current xs) (d ∷ x ∷ xs)) c
                  (Perm.trans (Perm.cons x (enqueue-perm queue init_task t t.current xs))
                    (Perm.swap t.current x xs)),
              vrun_sliced queue init_task s x xs,
            )
        | no h ↦
            let o =
              dispatch_stay queue init_task fuel (ready queue init_task r) r.not_idle enough
                (omega arith) in
            (
              inserted queue init_task t x xs,
              enqueue queue init_task t x xs,
              schedule-dispatch queue init_task fuel r.valid ∙ o.0,
              o.1,
              subst (λ d. Perm (t.current ∷ enqueue queue init_task t x xs) (d ∷ x ∷ xs)) c
                  (Perm.cons t.current (enqueue-perm queue init_task t x xs)),
              vrun_sliced queue init_task s x xs,
            )
      ]

  -- A task that gave up the CPU (its state is not TASK_RUNNING) is switched away from when the
  -- first task of the queue is due, and is not put back into the queue; nothing but that first task
  -- leaves a list.
  pub schedule_blocked :
      {s : Sched} {x : ℕ} {xs : List ℕ} (fuel : ℕ)
      → Running queue init_task s x xs
      → (s.task s.current).state ≢ task_running
      → vrun_time_of s x ≤ vrun_time_of s s.current
      → (s' : Sched) × (schedule queue init_task fuel s ≡ some s')
        × (s'.current ≡ x)
        × IsQueue queue init_task s' xs
        × (s'.links ≡ list_del s.links x)
  unfolding dispatch switch_to clear_need_schedule
  schedule_blocked {s} {x} {xs} fuel r blocked h =
      let t = sliced queue init_task s x xs in
      let c = current_sliced queue init_task s x xs in
      let runs : ((t.task t.current).state == task_running) ≡ false = ==_false _ _ (λ e. blocked (
        ap (λ p. (s.task p).state) (sym c)
        ∙ sym (state_sliced queue init_task s x xs t.current)
        ∙ e)) in
      let due : vrun_time_of t x ≤ vrun_time_of t t.current =
        rw
          (
            ap (λ k. k x) (vrun_sliced queue init_task s x xs),
            ap (λ k. k t.current) (vrun_sliced queue init_task s x xs),
            c,
          )
          h in
      let q = IsQueue-sliced queue init_task r.valid in
      (
        switch_to t x,
        schedule-dispatch queue init_task fuel r.valid ∙ (rw (le→leb _ _ due, runs)),
        refl,
        record { ring = q.ring; sorted = q.sorted; sentinel = q.sentinel; count = q.count },
        ap (λ (r : Sched). r.links)
            (refill_same (removed queue init_task (clear_need_schedule s) x xs) x),
      )

  -- But where its virtual run time is less than that of every task in the queue, `schedule`
  -- leaves the CPU to the task that gave it up.
  pub schedule_keeps_blocked :
      {s : Sched} {x : ℕ} {xs : List ℕ} (fuel : ℕ)
      → Running queue init_task s x xs
      → vrun_time_of s s.current < vrun_time_of s x
      → length xs < fuel
      → (s' : Sched) × (schedule queue init_task fuel s ≡ some s')
        × (s'.current ≡ s.current)
        × ((s'.task s.current).state ≡ (s.task s.current).state)
        × (s'.registers ≡ s.registers)
  unfolding clear_need_schedule
  schedule_keeps_blocked {s} {x} {xs} fuel r h enough =
      let t = sliced queue init_task s x xs in
      let later : vrun_time_of t t.current < vrun_time_of t x =
        rw
          (
            ap (λ k. k x) (vrun_sliced queue init_task s x xs),
            ap (λ k. k t.current) (vrun_sliced queue init_task s x xs),
            current_sliced queue init_task s x xs,
          )
          h in
      let o =
        dispatch_stay queue init_task fuel (ready queue init_task r) r.not_idle enough later in
      (
        inserted queue init_task t x xs,
        schedule-dispatch queue init_task fuel r.valid ∙ o.0,
        current_sliced queue init_task s x xs,
        state_sliced queue init_task s x xs s.current,
        ap (λ (v : Sched). v.registers)
            (refill_same (removed queue init_task (clear_need_schedule s) x xs) x),
      )
