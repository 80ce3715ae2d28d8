-- ===== src/Wait/Up.antt =====
-- kernel/semaphore.c: `semaphore_up` serves the task that has waited longest.
use mathlib.Core.Path.{fun_ext}
use mathlib.Core.List.{Perm}
use mine_os.Prelude.{
  ℕ, ◌+◌, ◌≤◌, ◌<◌, ◌≡◌, refl, sym, ◌≢◌, List, [], ◌∷◌, some, arith, length, subst, ◌∙◌, ap, bit_or,
}
use mine_os.Links.{list_del}
use mine_os.Links.Ring.{NotIn, Apart, Apart-symm, IsRing, Apart-cons}
use mine_os.Links.Splice.{list_is_empty-nil, list_is_empty-cons, list_next-cons, update_self}
use mine_os.Links.Place.{remove, before, after, before-append-after}
use mine_os.Links.Sorted.{remove-Apart, insert_before-Apart, Apart-map, NotIn-enqueue}
use mine_os.Sched.{Sched, Task, vrun_time_of, long_max, task_running, set_task, need_schedule}
use mine_os.Sched.Queue.{
  IsQueue, IsQueue-same, inserted, enqueue, enqueue-perm, insert_task_queue_lem,
}
use mine_os.Wait.{Semaphore, set_state, semaphore_up, wake_first}

pub vrun_set_state : (s : Sched) (t v : ℕ) → vrun_time_of (set_state s t v) ≡ vrun_time_of s
vrun_set_state s t v = fun_ext λ u. ground arith

vrun_set_flags :
    (s : Sched) (t v : ℕ)
    → vrun_time_of (set_task s t (record (s.task t) { flags = v })) ≡ vrun_time_of s
vrun_set_flags s t v = fun_ext λ u. ground arith

state_set_flags :
    (s : Sched) (t v u : ℕ)
    → ((set_task s t (record (s.task t) { flags = v })).task u).state ≡ (s.task u).state
state_set_flags s t v u = ground arith

module _ (queue init_task head : ℕ) where
  -- The run queue holds the tasks xs, and the wait list of the semaphore the entries ws, oldest first.
  pub record IsSemaphore (m : Semaphore) (xs ws : List ℕ) : Type 0 where
    pub run : IsQueue queue init_task m.wait.sched xs
    pub wait : IsRing m.wait.sched.links head ws
    pub apart : Apart (head ∷ ws) (queue ∷ xs)

  -- A task that is asleep: it is neither in the run queue nor an entry of the wait list.
  pub record IsAsleep (m : Semaphore) (xs ws : List ℕ) (t : ℕ) : Type 0 where
    pub not_idle : t ≢ init_task
    pub not_queued : NotIn t (queue ∷ xs)
    pub not_entry : NotIn t (head ∷ ws)
    pub bound : vrun_time_of m.wait.sched t ≤ long_max

  -- With nobody waiting, `semaphore_up` counts up and does nothing else.
  pub semaphore_up_free :
      {m : Semaphore} {xs : List ℕ} (fuel : ℕ)
      → IsSemaphore m xs []
      → semaphore_up queue init_task head fuel m ≡ some (record m { counter = m.counter + 1 })
  unfolding semaphore_up
  semaphore_up_free fuel v = rw (list_is_empty-nil v.wait)

  abbrev woken : Semaphore → ℕ → Sched
  woken m n =
      let s = m.wait.sched in
      set_state (record s { links = list_del s.links n }) (m.wait.tsk n) task_running

  woken-IsQueue :
      {m : Semaphore} {xs : List ℕ} {n : ℕ} {ws : List ℕ}
      → IsSemaphore m xs (n ∷ ws)
      → IsQueue queue init_task (woken m n) xs
  woken-IsQueue {m} {xs} {n} {ws} v =
      IsQueue-same queue init_task v.run
        (remove-Apart [] n ws v.wait (Apart-symm (head ∷ n ∷ ws) (queue ∷ xs) v.apart) v.run.ring)
        (vrun_set_state (record (m.wait.sched) { links = list_del m.wait.sched.links n }) _ _) refl

  -- With tasks waiting, `semaphore_up` takes the oldest entry off the wait list, makes its task
  -- runnable and puts it into the run queue; the counter stays as it is.
  pub semaphore_up_wakes :
      {m : Semaphore} {xs : List ℕ} {n : ℕ} {ws : List ℕ} (fuel : ℕ)
      → IsSemaphore m xs (n ∷ ws)
      → IsAsleep m xs (n ∷ ws) (m.wait.tsk n)
      → length xs < fuel
      → (m' : Semaphore) × (ys : List ℕ) × (semaphore_up queue init_task head fuel m ≡ some m')
        × IsSemaphore m' ys ws
        × Perm ys (m.wait.tsk n ∷ xs)
        × ((m'.wait.sched.task (m.wait.tsk n)).state ≡ task_running)
        × (m'.counter ≡ m.counter)
  unfolding semaphore_up wake_first
  semaphore_up_wakes {m} {xs} {n} {ws} fuel v a enough =
      let t = m.wait.tsk n in
      let s₁ = woken m n in
      let key =
        vrun_set_state (record (m.wait.sched) { links = list_del m.wait.sched.links n }) t
          task_running in
      let (done, kept) =
        insert_task_queue_lem queue init_task fuel t (woken-IsQueue v) a.not_idle a.not_queued
          (rw (ap (λ k. k t) key) a.bound) enough in
      let s₂ = inserted queue init_task s₁ t xs in
      let key₁ = vrun_time_of s₁ in
      let flags = bit_or (s₂.task s₂.current).flags need_schedule in
      let others =
        Apart-cons (head ∷ ws) t (queue ∷ xs) (a.not_entry.0, a.not_entry.1.1)
          (v.apart.0, v.apart.1.1) in
      let parts = before-append-after key₁ (key₁ t) xs in
      (
        record m {
          wait = record (m.wait) {
            sched = set_task s₂ s₂.current (record (s₂.task s₂.current) { flags = flags });
          };
        },
        enqueue queue init_task s₁ t xs,
        rw (list_is_empty-cons v.wait)
            (rw (list_next-cons v.wait, wake_first) (rw (done, wake_first))),
        record {
          run =
              IsQueue-same queue init_task kept kept.ring (vrun_set_flags s₂ s₂.current flags) refl;
          wait =
              insert_before-Apart (before key₁ (key₁ t) xs) (after key₁ (key₁ t) xs) t
                (subst (IsRing s₁.links queue) (sym parts) (woken-IsQueue v).ring)
                (subst (λ zs. Apart (head ∷ ws) (t ∷ queue ∷ zs)) (sym parts) others)
                (remove [] n ws v.wait);
          apart =
              Apart-map (head ∷ ws) (t ∷ queue ∷ xs) (queue ∷ enqueue queue init_task s₁ t xs)
                (λ p f. (f.1.0, NotIn-enqueue key₁ (key₁ t) p t xs f.0 f.1.1)) others;
        },
        enqueue-perm queue init_task s₁ t xs,
        state_set_flags s₂ s₂.current flags t
            ∙ ap (λ (r : Task). r.state) (update_self m.wait.sched.task t _),
        refl,
      )
