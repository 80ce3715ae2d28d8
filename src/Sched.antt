-- ===== src/Sched.antt =====
-- kernel/schedule.c: the run queue of the one CPU (NR_CPUS is 1), ordered by virtual run time, and
-- the choice of the next task; with the macro switch_to of include/task.h and the interrupt
-- handler of the system tick in drivers/timer.c.
--
-- A task is the address of its task_struct, which holds one list node, so that `container_of` is
-- the identity. `queue` is the task_struct in task_schedule[0] that heads the run queue, and
-- `init_task` the idle task. Counters and times are `long`s that do not wrap here.
pub mod Queue
pub mod Dispatch
pub mod Choice
pub mod Slice
use mine_os.Prelude.{
  ℕ, zero, suc, ◌+◌, ◌-◌, ◌*◌, ◌/◌, Bool, true, false, Option, none, some, ltb, leb, ◌==◌, ◌||◌,
  if◌then◌else◌, bit_and, bit_or, bit_xor,
}
use mine_os.Prelude.Int.{ℤ, pos, sub_from, is_zero, is_nonpos}
use mine_os.Links.{Links, update, list_init, list_add_to_before, list_del, list_is_empty, list_next}
use mine_os.Links.Place.{walk}

abbrev pub task_running : ℕ
task_running = 1

abbrev pub task_interruptible : ℕ
task_interruptible = 2

abbrev pub task_uninterruptible : ℕ
task_uninterruptible = 4

abbrev pub need_schedule : ℕ
need_schedule = 2

-- The largest `long`.
abbrev pub long_max : ℕ
long_max = 0x7fff_ffff

-- The fields of task_struct that the scheduler reads or writes.
pub record Task : Type 0 where
  pub state : ℕ
  pub flags : ℕ
  pub priority : ℕ
  pub vrun_time : ℕ

-- `context` is each task's saved cpu_context, and `registers` the CPU's own.
pub record Sched : Type 0 where
  pub links : Links
  pub task : ℕ → Task
  pub current : ℕ
  pub running_task_count : ℕ
  pub exec_task_jiffies : ℤ
  pub context : ℕ → ℕ
  pub registers : ℕ

abbrev pub vrun_time_of : Sched → ℕ → ℕ
vrun_time_of s t = (s.task t).vrun_time

abbrev pub set_task : Sched → ℕ → Task → Sched
set_task s t v = record s { task = update s.task t v }

-- The case split on the priority: tasks of priority 0 and 1 against the others.
abbrev pub is_fast : ℕ → Bool
is_fast p = leb p 1

unfoldable pub switch_to : Sched → ℕ → Sched
switch_to s next =
    let context = update s.context s.current s.registers in
    record s { current = next; context = context; registers = context next }

-- A new time slice for tsk, when the last one is used up.
unfoldable pub refill : Sched → ℕ → Sched
refill s tsk =
    if is_zero s.exec_task_jiffies
    then record s {
      exec_task_jiffies = pos (
          if is_fast (s.task tsk).priority
          then 4 / s.running_task_count
          else 4 / s.running_task_count * 3);
    }
    else s

unfoldable pub clear_need_schedule : Sched → Sched
clear_need_schedule s =
    let t = s.task s.current in
    set_task s s.current (record t { flags = bit_and t.flags (bit_xor 0xffff_ffff need_schedule) })

module _ (queue init_task : ℕ) where
  unfoldable pub get_next_task : Sched → ℕ × Sched
  get_next_task s =
      if list_is_empty s.links queue
      then (init_task, s)
      else (let tsk = list_next s.links queue in
          (
            tsk,
            record s {
              links = list_del s.links tsk;
              running_task_count = s.running_task_count - 1;
            },
          ))

  -- The loop that looks for the place of tsk runs on fuel; `none` means that the fuel ran out.
  unfoldable pub insert_task_queue : ℕ → Sched → ℕ → Option Sched
  insert_task_queue fuel s tsk =
      let tmp = list_next s.links queue in
      let place =
        (if list_is_empty s.links queue
          then some tmp
          else walk (vrun_time_of s) (vrun_time_of s tsk) fuel s.links tmp) in
      if tsk == init_task then some s else elim place [
        | none ↦ none
        | some at ↦ some (record s {
          links = list_add_to_before s.links at tsk;
          running_task_count = s.running_task_count + 1;
        })
      ]

  -- The end of `schedule`: tsk runs if its time is not more than that of the running task, which
  -- goes back to the queue if it can run; otherwise tsk goes back.
  unfoldable pub dispatch : ℕ → Sched → ℕ → Option Sched
  dispatch fuel s tsk =
      let put_back =
        (if (s.task s.current).state == task_running
          then insert_task_queue fuel s s.current
          else some s) in
      if leb (vrun_time_of s tsk) (vrun_time_of s s.current)
      then elim put_back [ none ↦ none | some s' ↦ some (switch_to s' tsk) ]
      else insert_task_queue fuel s tsk

  unfoldable pub schedule : ℕ → Sched → Option Sched
  schedule fuel s =
      let (tsk, s') = get_next_task (clear_need_schedule s) in dispatch fuel (refill s' tsk) tsk

  -- For NR_CPUS = 1. The memset of task_schedule clears the whole queue head before the rest.
  unfoldable pub schedule_init : Sched → Sched
  schedule_init s =
      let cleared : Task = record { state = 0; flags = 0; priority = 0; vrun_time = 0 } in
      let s₁ = set_task s queue (record cleared { vrun_time = long_max }) in
      record s₁ {
        links = list_init s₁.links queue;
        running_task_count = 1;
        exec_task_jiffies = pos 4;
        current = init_task;
      }

-- The part of tick_irq_hander that accounts for the running task.
unfoldable pub account_tick : Sched → Sched
account_tick s =
    let t = s.task s.current in
    let n = (if is_fast t.priority then 1 else 2) in
    let left = sub_from s.exec_task_jiffies n in
    let t' = record t { vrun_time = t.vrun_time + n } in
    record s {
      exec_task_jiffies = left;
      task =
          update s.task s.current
            (if is_nonpos left then record t' { flags = bit_or t'.flags need_schedule } else t');
    }
