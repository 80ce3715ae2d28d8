-- ===== src/Wait/Down.antt =====
-- kernel/semaphore.c and kernel/waitqueue.c: `semaphore_down`, and the sleep that it ends in.
use mine_os.Prelude.{
  ℕ, ◌-◌, ◌≤◌, ◌<◌, ◌≡◌, refl, ◌≢◌, List, [], ◌∷◌, ◌++◌, some, arith, length, ap, lt→ltb,
  le→ltb_false, subst, sym,
}
use mine_os.Links.{Links, list_init}
use mine_os.Links.Ring.{NotIn, Apart-symm, IsRing, Apart-cons, NotIn-append}
use mine_os.Links.Splice.{list_add_to_before-IsRing, update_self}
use mine_os.Links.Sorted.{
  SameAt, All-same, IsRing-same, insert_before_same, Apart-map, remove-Apart,
}
use mine_os.Sched.{Sched, Task, vrun_time_of, task_uninterruptible, schedule}
use mine_os.Sched.Queue.{IsQueue, IsQueue-same}
use mine_os.Sched.Choice.{schedule_keeps_blocked, schedule_blocked}
use mine_os.Sched.Dispatch.{Running}
use mine_os.Wait.{Wait, Semaphore, prepare_sleep, semaphore_down, wait_for_up, sleep_on}
use mine_os.Wait.Up.{IsSemaphore, vrun_set_state}

list_init_same : (h : Links) (n p : ℕ) → p ≢ n → SameAt (list_init h n) h p
unfolding list_init
list_init_same h n p ne = (ground arith, ground arith)

list_init_apart :
    {h : Links} (n : ℕ) {head : ℕ} {xs : List ℕ}
    → NotIn n (head ∷ xs)
    → IsRing h head xs
    → IsRing (list_init h n) head xs
list_init_apart {h} n {head} {xs} f r =
    IsRing-same
      (All-same h (list_init h n) (n ∷ []) (head ∷ xs) (λ p g. list_init_same h n p g.0)
        (Apart-symm (n ∷ []) (head ∷ xs) (f, tt)))
      r

module _ (queue init_task head : ℕ) where
  -- The entry `wait` on the caller's stack is in no list yet.
  pub record IsFresh (xs ws : List ℕ) (wait : ℕ) : Type 0 where
    pub off_queue : NotIn wait (queue ∷ xs)
    pub off_list : NotIn wait (head ∷ ws)

  prepared_links :
      {m : Semaphore} {xs ws : List ℕ} (wait state : ℕ)
      → IsSemaphore queue init_task head m xs ws
      → IsFresh xs ws wait
      → IsRing (prepare_sleep m.wait head wait state).sched.links head (ws ++ wait ∷ [])
        × IsRing (prepare_sleep m.wait head wait state).sched.links queue xs
  unfolding prepare_sleep
  prepared_links {m} {xs} {ws} wait state v f =
      let own = list_init_apart wait f.off_list v.wait in
      (
        list_add_to_before-IsRing wait own f.off_list,
        IsRing-same
            (All-same _ _ (wait ∷ head ∷ ws) (queue ∷ xs) (insert_before_same wait own)
              (Apart-symm (wait ∷ head ∷ ws) (queue ∷ xs) (f.off_queue, v.apart)))
            (list_init_apart wait f.off_queue v.run.ring),
      )

  prepared-IsSemaphore :
      {m : Semaphore} {xs ws : List ℕ} (wait state : ℕ)
      → IsSemaphore queue init_task head m xs ws
      → IsFresh xs ws wait
      → IsSemaphore queue init_task head
          (record m { wait = prepare_sleep m.wait head wait state })
          xs
          (ws ++ wait ∷ [])
  unfolding prepare_sleep
  prepared-IsSemaphore {m} {xs} {ws} wait state v f =
      let (own, run) = prepared_links wait state v f in
      record {
        run = IsQueue-same queue init_task v.run run (vrun_set_state m.wait.sched _ state) refl;
        wait = own;
        apart = Apart-symm (queue ∷ xs) (head ∷ ws ++ wait ∷ []) (
            Apart-map (queue ∷ xs) (wait ∷ head ∷ ws) (head ∷ ws ++ wait ∷ [])
              (λ p g. (g.1.0, NotIn-append p ws (wait ∷ []) g.1.1 (g.0, tt)))
              (Apart-cons (queue ∷ xs) wait (head ∷ ws) f.off_queue
                (Apart-symm (head ∷ ws) (queue ∷ xs) v.apart)));
      }

  -- A semaphore that is up is taken: the counter falls by one, and nothing else changes.
  pub semaphore_down_takes :
      (fuel : ℕ) (m : Semaphore) (wait : ℕ)
      → 0 < m.counter
      → semaphore_down queue init_task head fuel m wait
        ≡ some (record m { counter = m.counter - 1 })
  unfolding semaphore_down
  semaphore_down_takes fuel m wait h = rw (lt→ltb 0 m.counter h)

  -- `current` keeps its place in the order while it prepares to sleep.
  prepared-Running :
      {m : Semaphore} {x : ℕ} {xs ws : List ℕ} (wait state : ℕ)
      → IsSemaphore queue init_task head m (x ∷ xs) ws
      → IsFresh (x ∷ xs) ws wait
      → Running queue init_task m.wait.sched x xs
      → Running queue init_task (prepare_sleep m.wait head wait state).sched x xs
  unfolding prepare_sleep
  prepared-Running {m} {x} wait state v f r =
      let key = vrun_set_state m.wait.sched m.wait.sched.current state in
      record {
        valid = (prepared-IsSemaphore wait state v f).run;
        apart = r.apart;
        not_idle = r.not_idle;
        bounds = (
          rw (ap (λ k. k m.wait.sched.current) key) r.bounds.0,
          rw (ap (λ k. k x) key) r.bounds.1,
        );
      }

  prepared_state :
      (w : Wait) (wait state : ℕ)
      → let s = (prepare_sleep w head wait state).sched in
        (s.current ≡ w.sched.current)
        × ((s.task s.current).state ≡ state)
        × (vrun_time_of s ≡ vrun_time_of w.sched)
  unfolding prepare_sleep
  prepared_state w wait state = (
    refl,
    ap (λ (t : Task). t.state) (update_self w.sched.task w.sched.current _),
    vrun_set_state w.sched w.sched.current state,
  )

  -- What `semaphore_down` returns with, once `schedule` has chosen.
  down_result :
      (m : Semaphore) (fuel wait : ℕ) (s' : Sched)
      → m.counter ≡ 0
      → schedule queue init_task fuel (prepare_sleep m.wait head wait task_uninterruptible).sched
        ≡ some s'
      → semaphore_down queue init_task head fuel m wait
        ≡ some (record m {
          wait = record (prepare_sleep m.wait head wait task_uninterruptible) { sched = s' };
        })
  unfolding semaphore_down wait_for_up sleep_on
  down_result m fuel wait s' e done =
      rw (le→ltb_false 0 m.counter (omega arith)) (rw (done, wait_for_up, sleep_on))

  -- A semaphore that is down puts the caller to sleep at the end of the wait list, behind those
  -- that wait, with an entry that names it: the first task of the queue runs, the run queue is what
  -- was behind it, and the counter is still 0. This holds where that first task is due.
  pub semaphore_down_sleeps :
      {m : Semaphore} {x : ℕ} {xs ws : List ℕ} (fuel wait : ℕ)
      → IsSemaphore queue init_task head m (x ∷ xs) ws
      → IsFresh (x ∷ xs) ws wait
      → Running queue init_task m.wait.sched x xs
      → m.counter ≡ 0
      → vrun_time_of m.wait.sched x ≤ vrun_time_of m.wait.sched m.wait.sched.current
      → (m' : Semaphore) × (semaphore_down queue init_task head fuel m wait ≡ some m')
        × (m'.wait.sched.current ≡ x)
        × IsQueue queue init_task m'.wait.sched xs
        × IsRing m'.wait.sched.links head (ws ++ wait ∷ [])
        × (m'.counter ≡ 0)
        × (m'.wait.tsk wait ≡ m.wait.sched.current)
  unfolding prepare_sleep
  semaphore_down_sleeps {m} {x} {xs} {ws} fuel wait v f r e due =
      let w = prepare_sleep m.wait head wait task_uninterruptible in
      let p = prepared_state m.wait wait task_uninterruptible in
      let v' = prepared-IsSemaphore wait task_uninterruptible v f in
      let (s', done, cur, q, removed) =
        schedule_blocked queue init_task fuel (prepared-Running wait task_uninterruptible v f r)
          (λ d. absurd (omega (arith, p.1, d)))
          (rw (ap (λ k. k x) p.2, ap (λ k. k m.wait.sched.current) p.2) due) in
      (
        record m { wait = record w { sched = s' } },
        down_result m fuel wait s' e done,
        cur,
        q,
        subst (λ l. IsRing l head (ws ++ wait ∷ [])) (sym removed)
            (remove-Apart [] x xs v'.run.ring v'.apart v'.wait),
        e,
        update_self m.wait.tsk wait m.wait.sched.current,
      )

  -- Where the caller has less virtual run time than every task of a queue that is not empty,
  -- `semaphore_down` of a semaphore that is down returns to the caller at once, although the
  -- counter is 0 and nobody has called `semaphore_up`.
  pub semaphore_down_returns_early :
      {m : Semaphore} {x : ℕ} {xs ws : List ℕ} (fuel wait : ℕ)
      → IsSemaphore queue init_task head m (x ∷ xs) ws
      → IsFresh (x ∷ xs) ws wait
      → Running queue init_task m.wait.sched x xs
      → m.counter ≡ 0
      → vrun_time_of m.wait.sched m.wait.sched.current < vrun_time_of m.wait.sched x
      → length xs < fuel
      → (m' : Semaphore) × (semaphore_down queue init_task head fuel m wait ≡ some m')
        × (m'.wait.sched.current ≡ m.wait.sched.current)
        × (m'.wait.sched.registers ≡ m.wait.sched.registers)
        × (m'.counter ≡ 0)
  unfolding prepare_sleep
  semaphore_down_returns_early {m} {x} {xs} {ws} fuel wait v f r e least enough =
      let w = prepare_sleep m.wait head wait task_uninterruptible in
      let p = prepared_state m.wait wait task_uninterruptible in
      let (s', done, cur, st, regs) =
        schedule_keeps_blocked queue init_task fuel
          (prepared-Running wait task_uninterruptible v f r)
          (rw (ap (λ k. k x) p.2, ap (λ k. k m.wait.sched.current) p.2) least) enough in
      (record m { wait = record w { sched = s' } }, down_result m fuel wait s' e done, cur, regs, e)
