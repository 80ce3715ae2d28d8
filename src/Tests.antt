-- ===== src/Tests.antt =====
-- A small scene for the tests of kernel/: the run queue at 1 holds the tasks 10 and 11, the idle
-- task is 2, the task 12 runs, and the task 13 sleeps in the wait list at 3 with the entry 20.
mod Kernel
mod Devices
mod Interrupts
mod Infrared
mod Pages
mod Heap
mod Objects
mod Sensors
mod Fork
mod Calendar
mod Bus
mod Storage
mod Translation
mod Flash
use mine_os.Prelude.{ℕ, zero, suc, ◌≡◌, refl, ◌≢◌, List, [], ◌∷◌, arith, if◌then◌else◌, ◌==◌}
use mine_os.Prelude.Int.{pos}
use mine_os.Links.{Links, list_init, list_add_to_before}
use mine_os.Links.Ring.{IsRing}
use mine_os.Links.Sorted.{IsSorted}
use mine_os.Sched.{Sched, Task, long_max, vrun_time_of}
use mine_os.Sched.Queue.{IsQueue}
use mine_os.Wait.{Semaphore}
use mine_os.Wait.Up.{IsSemaphore}

abbrev queue_links : Links
queue_links =
    list_add_to_before
      (list_add_to_before (list_init (record { prev = λ p. p; next = λ p. p }) 1) 1 10) 1 11

abbrev links : Links
links = list_add_to_before (list_init queue_links 3) 3 20

-- v is the virtual run time of the running task, and p its state.
abbrev pub scene_task : ℕ → ℕ → ℕ → Task
scene_task v p t = record {
  state = (if t == 12 then p else (if t == 13 then 4 else 1));
  flags = 0;
  priority = 2;
  vrun_time = (if t == 1 then long_max else (if t == 10 then 5 else (if t == 12 then v else 8)));
}

abbrev pub scene : ℕ → ℕ → Sched
scene v p = record {
  links = links;
  task = scene_task v p;
  current = 12;
  running_task_count = 3;
  exec_task_jiffies = pos 3;
  context = λ t. t;
  registers = 77;
}

pub scene-IsQueue : (v p : ℕ) → IsQueue 1 2 (scene v p) (10 ∷ 11 ∷ [])
unfolding list_add_to_before list_init
scene-IsQueue v p = record {
  ring = record {
    linked = (refl, refl, (refl, refl, (refl, refl)));
    distinct = ((omega arith, (omega arith, tt)), ((omega arith, tt), (tt, tt)));
  };
  sorted = ((omega arith, tt), (tt, tt));
  sentinel = refl;
  count = refl;
}

abbrev pub scene_semaphore : ℕ → Semaphore
scene_semaphore v = record {
  wait = record { sched = scene v 1; tsk = λ w. if w == 20 then 13 else 0 };
  counter = 0;
}

pub scene-IsSemaphore : (v : ℕ) → IsSemaphore 1 2 3 (scene_semaphore v) (10 ∷ 11 ∷ []) (20 ∷ [])
unfolding list_add_to_before list_init
scene-IsSemaphore v = record {
  run = scene-IsQueue v 1;
  wait = record { linked = (refl, refl, (refl, refl)); distinct = ((omega arith, tt), (tt, tt)) };
  apart = (
    (omega arith, (omega arith, (omega arith, tt))),
    ((omega arith, (omega arith, (omega arith, tt))), tt),
  );
}
