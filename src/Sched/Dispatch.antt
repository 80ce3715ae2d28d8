-- ===== src/Sched/Dispatch.antt =====
-- kernel/schedule.c: the two halves of `schedule`, the time slice and the choice.
use mathlib.Core.Path.{fun_ext}
use mine_os.Prelude.{
  ℕ, ◌≤◌, ◌<◌, ◌≡◌, refl, sym, ◌≢◌, List, ◌∷◌, some, arith, length, false, subst, ◌∙◌, All, le→leb,
  ap, leb,
}
use mine_os.Links.Ring.{NotIn}
use mine_os.Links.Sorted.{All-insert, All-le_trans}
use mine_os.Sched.{
  Sched, vrun_time_of, long_max, task_running, refill, clear_need_schedule, dispatch, schedule,
  switch_to,
}
use mine_os.Sched.Queue.{
  IsQueue, enqueue, inserted, removed, insert_task_queue_lem, get_next_task-cons, IsQueue-same,
}

vrun-clear : (s : Sched) → vrun_time_of (clear_need_schedule s) ≡ vrun_time_of s
unfolding clear_need_schedule
vrun-clear s = fun_ext λ t. ground arith

state-clear : (s : Sched) (t : ℕ) → ((clear_need_schedule s).task t).state ≡ (s.task t).state
unfolding clear_need_schedule
state-clear s t = ground arith

-- `refill` changes the time slice alone.
pub refill_same :
    (s : Sched) (t : ℕ)
    → refill s t ≡ record s { exec_task_jiffies = (refill s t).exec_task_jiffies }
unfolding refill
refill_same s t = ground arith

module _ (queue init_task : ℕ) where
  IsQueue-clear :
      {s : Sched} {xs : List ℕ}
      → IsQueue queue init_task s xs
      → IsQueue queue init_task (clear_need_schedule s) xs
  unfolding clear_need_schedule
  IsQueue-clear {s} {xs} q = IsQueue-same queue init_task q q.ring (vrun-clear s) refl

  -- What `schedule` promises of the state s' that it ends in, begun with cur running: the queue
  -- holds ys, and nothing in it is due before the running task.
  pub record IsFair (s' : Sched) (ys : List ℕ) : Type 0 where
    pub valid : IsQueue queue init_task s' ys
    pub least : All (λ y. vrun_time_of s' s'.current ≤ vrun_time_of s' y) ys

  pub All-enqueue :
      (s : Sched) (t b : ℕ) (xs : List ℕ)
      → b ≤ vrun_time_of s t
      → All (λ y. b ≤ vrun_time_of s y) xs
      → All (λ y. b ≤ vrun_time_of s y) (enqueue queue init_task s t xs)
  All-enqueue s t b xs h p = All-insert (vrun_time_of s) (vrun_time_of s t) b t xs h p

  -- The tasks x, cur and xs, in the state that `dispatch` starts from.
  pub record Ready (s : Sched) (x : ℕ) (xs : List ℕ) : Type 0 where
    valid : IsQueue queue init_task s xs
    least : All (λ y. vrun_time_of s x ≤ vrun_time_of s y) xs
    fresh_x : NotIn x (queue ∷ xs)
    fresh_cur : NotIn s.current (queue ∷ xs)
    bound_x : vrun_time_of s x ≤ long_max
    bound_cur : vrun_time_of s s.current ≤ long_max

  pub dispatch_switch :
      {s : Sched} {x : ℕ} {xs : List ℕ} (fuel : ℕ)
      → Ready s x xs
      → (s.task s.current).state ≡ task_running
      → s.current ≢ init_task
      → length xs < fuel
      → vrun_time_of s x ≤ vrun_time_of s s.current
      → let s' = switch_to (inserted queue init_task s s.current xs) x in
        (dispatch queue init_task fuel s x ≡ some s')
        × IsFair s' (enqueue queue init_task s s.current xs)
  unfolding dispatch switch_to
  dispatch_switch {s} {x} {xs} fuel r run ne enough h =
      let (done, kept) =
        insert_task_queue_lem queue init_task fuel s.current r.valid ne r.fresh_cur r.bound_cur
          enough in
      (
        rw (le→leb _ _ h, run, done),
        record {
          valid = record {
            ring = kept.ring;
            sorted = kept.sorted;
            sentinel = kept.sentinel;
            count = kept.count;
          };
          least = All-enqueue s s.current (vrun_time_of s x) xs h r.least;
        },
      )

  pub dispatch_stay :
      {s : Sched} {x : ℕ} {xs : List ℕ} (fuel : ℕ)
      → Ready s x xs
      → x ≢ init_task
      → length xs < fuel
      → vrun_time_of s s.current < vrun_time_of s x
      → let s' = inserted queue init_task s x xs in
        (dispatch queue init_task fuel s x ≡ some s') × IsFair s' (enqueue queue init_task s x xs)
  unfolding dispatch
  dispatch_stay {s} {x} {xs} fuel r ne enough h =
      let (done, kept) =
        insert_task_queue_lem queue init_task fuel x r.valid ne r.fresh_x r.bound_x enough in
      let later : leb (vrun_time_of s x) (vrun_time_of s s.current) ≡ false = ground arith in
      (
        rw (later, done),
        record {
          valid = kept;
          least =
              All-enqueue s x (vrun_time_of s s.current) xs (omega arith)
                (All-le_trans (vrun_time_of s) _ _ xs (omega arith) r.least);
        },
      )

  -- The run queue of s holds x and then xs, and the running task is none of them.
  pub record Running (s : Sched) (x : ℕ) (xs : List ℕ) : Type 0 where
    pub valid : IsQueue queue init_task s (x ∷ xs)
    pub apart : NotIn s.current (queue ∷ x ∷ xs)
    pub not_idle : x ≢ init_task
    pub bounds : (vrun_time_of s s.current ≤ long_max) × (vrun_time_of s x ≤ long_max)

  abbrev pub sliced : Sched → ℕ → List ℕ → Sched
  sliced s x xs = refill (removed queue init_task (clear_need_schedule s) x xs) x

  pub vrun_sliced :
      (s : Sched) (x : ℕ) (xs : List ℕ) → vrun_time_of (sliced s x xs) ≡ vrun_time_of s
  vrun_sliced s x xs =
      ap (λ r. vrun_time_of r)
        (refill_same (removed queue init_task (clear_need_schedule s) x xs) x)
      ∙ vrun-clear s

  pub current_sliced : (s : Sched) (x : ℕ) (xs : List ℕ) → (sliced s x xs).current ≡ s.current
  unfolding clear_need_schedule
  current_sliced s x xs =
      ap (λ (r : Sched). r.current)
        (refill_same (removed queue init_task (clear_need_schedule s) x xs) x)

  pub state_sliced :
      (s : Sched) (x : ℕ) (xs : List ℕ) (t : ℕ) → ((sliced s x xs).task t).state ≡ (s.task t).state
  state_sliced s x xs t =
      ap (λ (r : Sched). (r.task t).state)
        (refill_same (removed queue init_task (clear_need_schedule s) x xs) x)
      ∙ state-clear s t

  pub schedule-dispatch :
      {s : Sched} {x : ℕ} {xs : List ℕ} (fuel : ℕ)
      → IsQueue queue init_task s (x ∷ xs)
      → schedule queue init_task fuel s ≡ dispatch queue init_task fuel (sliced s x xs) x
  unfolding schedule
  schedule-dispatch fuel q = rw ((get_next_task-cons queue init_task (IsQueue-clear q)).0)

  pub IsQueue-sliced :
      {s : Sched} {x : ℕ} {xs : List ℕ}
      → IsQueue queue init_task s (x ∷ xs)
      → IsQueue queue init_task (sliced s x xs) xs
  IsQueue-sliced {s} {x} {xs} q =
      let taken = (get_next_task-cons queue init_task (IsQueue-clear q)).1 in
      rw (refill_same (removed queue init_task (clear_need_schedule s) x xs) x) (record {
        ring = taken.ring;
        sorted = taken.sorted;
        sentinel = taken.sentinel;
        count = taken.count;
      })

  pub ready : {s : Sched} {x : ℕ} {xs : List ℕ} → Running s x xs → Ready (sliced s x xs) x xs
  ready {s} {x} {xs} r =
      let key = vrun_sliced s x xs in
      let d = r.valid.ring.distinct in
      record {
        valid = IsQueue-sliced r.valid;
        least = subst (λ k. All (λ y. k x ≤ k y) xs) (sym key) r.valid.sorted.0;
        fresh_x = ((λ e. d.0.0 (sym e)), d.1.0);
        fresh_cur =
            subst (λ c. NotIn c (queue ∷ xs)) (sym (current_sliced s x xs))
              (r.apart.0, r.apart.1.1);
        bound_x = rw (ap (λ k. k x) key) r.bounds.1;
        bound_cur = rw (ap (λ k. k (sliced s x xs).current) key, current_sliced s x xs) r.bounds.0;
      }
