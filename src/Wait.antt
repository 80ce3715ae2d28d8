-- ===== src/Wait.antt =====
-- kernel/waitqueue.c and kernel/semaphore.c: tasks that sleep in a list of wait_queue_T, and the
-- counting semaphore above it. A wait_queue_T is its address, which is the address of its list
-- node. The one that `sleep_on` and `__down` keep on the stack is a parameter of theirs.
pub mod Up
pub mod Down
use mine_os.Prelude.{
  ℕ, suc, ◌+◌, ◌-◌, Bool, true, false, not, Option, none, some, ltb, ◌==◌, if◌then◌else◌, bit_and,
  bit_or,
}
use mine_os.Links.{update, list_init, list_add_to_before, list_del, list_is_empty, list_next}
use mine_os.Sched.{
  Sched, Task, set_task, schedule, insert_task_queue, task_running, task_interruptible,
  task_uninterruptible, need_schedule,
}

-- `tsk` is that field of every wait_queue_T.
pub record Wait : Type 0 where
  pub sched : Sched
  pub tsk : ℕ → ℕ

abbrev pub set_state : Sched → ℕ → ℕ → Sched
set_state s t v = set_task s t (record (s.task t) { state = v })

unfoldable pub wait_queue_init : Wait → ℕ → ℕ → Wait
wait_queue_init w wait_queue tsk = record w {
  sched = record (w.sched) { links = list_init w.sched.links wait_queue };
  tsk = update w.tsk wait_queue tsk;
}

-- What `sleep_on`, `interruptible_sleep_on` and `__down` do before they call `schedule`.
unfoldable pub prepare_sleep : Wait → ℕ → ℕ → ℕ → Wait
unfolding wait_queue_init
prepare_sleep w head wait state =
    let w₁ = wait_queue_init w wait w.sched.current in
    let s = set_state w₁.sched w₁.sched.current state in
    record w₁ { sched = record s { links = list_add_to_before s.links head wait } }

module _ (queue init_task : ℕ) where
  schedule_of : ℕ → Wait → Option Wait
  schedule_of fuel w = elim (schedule queue init_task fuel w.sched) [
    | none ↦ none
    | some s ↦ some (record w { sched = s })
  ]

  unfoldable pub sleep_on : ℕ → Wait → ℕ → ℕ → Option Wait
  unfolding schedule_of
  sleep_on fuel w head wait = schedule_of fuel (prepare_sleep w head wait task_uninterruptible)

  unfoldable pub interruptible_sleep_on : ℕ → Wait → ℕ → ℕ → Option Wait
  unfolding schedule_of
  interruptible_sleep_on fuel w head wait =
      schedule_of fuel (prepare_sleep w head wait task_interruptible)

-- `wakeup_process` is not defined in the repository.
module _ (wakeup_process : ℕ → Wait → Wait) where
  unfoldable pub wakeup : Wait → ℕ → ℕ → Wait
  wakeup w head state =
      let wait = list_next w.sched.links head in
      let w' = record w { sched = record (w.sched) { links = list_del w.sched.links wait } } in
      if list_is_empty w.sched.links head
      then w
      else (if bit_and (w.sched.task (w.tsk wait)).state state == 0
          then w
          else wakeup_process (w.tsk wait) w')

-- A semaphore_T whose wait list is headed by `head`; its counter does not go below 0.
pub record Semaphore : Type 0 where
  pub wait : Wait
  pub counter : ℕ

unfoldable pub semaphore_init : Semaphore → ℕ → ℕ → Semaphore
semaphore_init m head count = record { wait = wait_queue_init m.wait head 0; counter = count }

module _ (queue init_task head : ℕ) where
  unfoldable pub wake_first : ℕ → Semaphore → Option Semaphore
  wake_first fuel m =
      let s = m.wait.sched in
      let wait = list_next s.links head in
      let tsk = m.wait.tsk wait in
      let s₁ = set_state (record s { links = list_del s.links wait }) tsk task_running in
      elim (insert_task_queue queue init_task fuel s₁ tsk) [
        | none ↦ none
        | some s₂ ↦
            let t = s₂.task s₂.current in
            some (record m {
              wait = record (m.wait) {
                sched = set_task s₂ s₂.current (record t { flags = bit_or t.flags need_schedule });
              };
            })
      ]

  unfoldable pub semaphore_up : ℕ → Semaphore → Option Semaphore
  semaphore_up fuel m =
      if list_is_empty m.wait.sched.links head
      then some (record m { counter = m.counter + 1 })
      else wake_first fuel m

  unfoldable pub wait_for_up : ℕ → Semaphore → ℕ → Option Semaphore
  wait_for_up fuel m wait = elim (sleep_on queue init_task fuel m.wait head wait) [
    | none ↦ none
    | some w ↦ some (record m { wait = w })
  ]

  unfoldable pub semaphore_down : ℕ → Semaphore → ℕ → Option Semaphore
  semaphore_down fuel m wait =
      if ltb 0 m.counter
      then some (record m { counter = m.counter - 1 })
      else wait_for_up fuel m wait
