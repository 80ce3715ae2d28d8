-- ===== src/Sched/Queue.antt =====
-- kernel/schedule.c: the run queue as a list of tasks in the order of their virtual run time.
use mathlib.Core.List.{Perm, perm_middle}
use mine_os.Prelude.{
  ℕ, suc, ◌+◌, ◌-◌, ◌≤◌, ◌<◌, ◌≡◌, refl, sym, ◌≢◌, List, [], ◌∷◌, ◌++◌, some, arith, length,
  ==_refl, ==_false, subst, ap, ◌∙◌,
}
use mine_os.Links.{list_add_to_before, list_del}
use mine_os.Links.Ring.{NotIn, IsRing}
use mine_os.Links.Splice.{
  list_is_empty-ring, list_next-cons, list_is_empty-cons, list_init-IsRing, update_self,
}
use mine_os.Links.Place.{
  first, before, after, before-append-after, place_lem, insert_before, remove,
}
use mine_os.Links.Sorted.{IsSorted, insert-IsSorted, length-insert}
use mine_os.Sched.{
  Sched, Task, vrun_time_of, long_max, get_next_task, insert_task_queue, schedule_init,
}

module _ (queue init_task : ℕ) where
  -- The run queue of s holds the tasks xs, in this order.
  pub record IsQueue (s : Sched) (xs : List ℕ) : Type 0 where
    pub ring : IsRing s.links queue xs
    pub sorted : IsSorted (vrun_time_of s) xs
    pub sentinel : vrun_time_of s queue ≡ long_max
    pub count : s.running_task_count ≡ suc (length xs)

  -- The list with tsk put at its place.
  abbrev pub enqueue : Sched → ℕ → List ℕ → List ℕ
  enqueue s tsk xs =
      let k = vrun_time_of s tsk in
      before (vrun_time_of s) k xs ++ tsk ∷ after (vrun_time_of s) k xs

  -- The state after the insertion.
  abbrev pub inserted : Sched → ℕ → List ℕ → Sched
  inserted s tsk xs = record s {
    links =
        list_add_to_before s.links (first (after (vrun_time_of s) (vrun_time_of s tsk) xs) queue)
          tsk;
    running_task_count = s.running_task_count + 1;
  }

  pub insert_task_queue_init :
      (fuel : ℕ) (s : Sched) → insert_task_queue queue init_task fuel s init_task ≡ some s
  unfolding insert_task_queue
  insert_task_queue_init fuel s = rw (==_refl init_task)

  pub insert_task_queue_result :
      {s : Sched} {xs : List ℕ} (fuel tsk : ℕ)
      → IsQueue s xs
      → tsk ≢ init_task
      → vrun_time_of s tsk ≤ long_max
      → length xs < fuel
      → insert_task_queue queue init_task fuel s tsk ≡ some (inserted s tsk xs)
  unfolding insert_task_queue
  insert_task_queue_result {s} {xs} fuel tsk q ne small enough = rw (
    ==_false tsk init_task ne,
    place_lem (vrun_time_of s) (vrun_time_of s tsk) fuel q.ring (rw q.sentinel small) enough,
  )

  -- Where the invariant holds, putting a task of its own into the queue ends, puts it before the
  -- tasks whose time is not less than its own, and keeps the invariant.
  pub insert_task_queue_lem :
      {s : Sched} {xs : List ℕ} (fuel tsk : ℕ)
      → IsQueue s xs
      → tsk ≢ init_task
      → NotIn tsk (queue ∷ xs)
      → vrun_time_of s tsk ≤ long_max
      → length xs < fuel
      → (insert_task_queue queue init_task fuel s tsk ≡ some (inserted s tsk xs))
        × IsQueue (inserted s tsk xs) (enqueue s tsk xs)
  insert_task_queue_lem {s} {xs} fuel tsk q ne fresh small enough =
      let k = vrun_time_of s tsk in
      let parts = before-append-after (vrun_time_of s) k xs in
      (
        insert_task_queue_result fuel tsk q ne small enough,
        record {
          ring =
              insert_before (before (vrun_time_of s) k xs) (after (vrun_time_of s) k xs) tsk
                (subst (IsRing s.links queue) (sym parts) q.ring)
                (subst (λ ys. NotIn tsk (queue ∷ ys)) (sym parts) fresh);
          sorted = insert-IsSorted (vrun_time_of s) tsk xs q.sorted;
          sentinel = q.sentinel;
          count = omega (arith, length-insert (vrun_time_of s) k tsk xs, q.count);
        },
      )

  pub get_next_task-nil :
      {s : Sched} → IsQueue s [] → get_next_task queue init_task s ≡ (init_task, s)
  unfolding get_next_task
  get_next_task-nil q = rw ((list_is_empty-ring [] q.ring).1 refl)

  abbrev pub removed : Sched → ℕ → List ℕ → Sched
  removed s x xs = record s {
    links = list_del s.links x;
    running_task_count = s.running_task_count - 1;
  }

  -- The next task is the first one of the queue, which loses it.
  pub get_next_task-cons :
      {s : Sched} {x : ℕ} {xs : List ℕ}
      → IsQueue s (x ∷ xs)
      → (get_next_task queue init_task s ≡ (x, removed s x xs)) × IsQueue (removed s x xs) xs
  unfolding get_next_task
  get_next_task-cons {s} {x} {xs} q = (
    rw (list_is_empty-cons q.ring, list_next-cons q.ring),
    record {
      ring = remove [] x xs q.ring;
      sorted = q.sorted.1;
      sentinel = q.sentinel;
      count = omega (arith, q.count);
    },
  )

  -- `schedule_init` leaves an empty queue and the idle task running.
  schedule_init-IsQueue :
      (s : Sched)
      → IsQueue (schedule_init queue init_task s) []
        × ((schedule_init queue init_task s).current ≡ init_task)
  unfolding schedule_init
  schedule_init-IsQueue s = (
    record {
      ring = list_init-IsRing s.links queue;
      sorted = tt;
      sentinel = ap (λ (t : Task). t.vrun_time) (update_self s.task queue _);
      count = refl;
    },
    refl,
  )

  -- The invariant is about the ring, the times and the counter.
  pub IsQueue-same :
      {s s' : Sched} {xs : List ℕ}
      → IsQueue s xs
      → IsRing s'.links queue xs
      → vrun_time_of s' ≡ vrun_time_of s
      → s'.running_task_count ≡ s.running_task_count
      → IsQueue s' xs
  IsQueue-same {s} {s'} {xs} q r key n = record {
    ring = r;
    sorted = subst (λ k. IsSorted k xs) (sym key) q.sorted;
    sentinel = ap (λ k. k queue) key ∙ q.sentinel;
    count = n ∙ q.count;
  }

  pub enqueue-perm : (s : Sched) (t : ℕ) (xs : List ℕ) → Perm (enqueue s t xs) (t ∷ xs)
  enqueue-perm s t xs =
      subst (λ ys. Perm (enqueue s t xs) (t ∷ ys))
        (before-append-after (vrun_time_of s) (vrun_time_of s t) xs)
        (perm_middle (before (vrun_time_of s) (vrun_time_of s t) xs) _)
