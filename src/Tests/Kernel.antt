-- ===== src/Tests/Kernel.antt =====
-- The theorems on kernel/schedule.c, waitqueue.c, semaphore.c, timer.c and softirq.c at concrete
-- states, and runs of the code.
use mathlib.Core.List.{Perm}
use mine_os.Prelude.{ℕ, ◌≤◌, ◌≡◌, refl, List, [], ◌∷◌, some, arith}
use mine_os.Links.Ring.{IsRing}
use mine_os.Prelude.Int.{negsuc}
use mine_os.Sched.{Sched, task_running, schedule, insert_task_queue, vrun_time_of}
use mine_os.Sched.Queue.{IsQueue, inserted, insert_task_queue_lem}
use mine_os.Wait.{Semaphore, semaphore_up, semaphore_down}
use mine_os.Wait.Up.{IsSemaphore, semaphore_up_wakes}
use mine_os.Wait.Down.{IsFresh, semaphore_down_sleeps, semaphore_down_returns_early}
use mine_os.Sched.Choice.{schedule-IsFair, schedule_keeps_blocked}
use mine_os.Sched.Dispatch.{IsFair, Running}
use mine_os.Sched.Slice.{asked, ticks, odd_slice_not_refilled}
use mine_os.Tests.{scene, scene-IsQueue, scene_semaphore, scene-IsSemaphore}

scene-Running : (v p : ℕ) → v ≤ 9 → Running 1 2 (scene v p) 10 (11 ∷ [])
scene-Running v p h = record {
  valid = scene-IsQueue v p;
  apart = (omega arith, (omega arith, (omega arith, tt)));
  not_idle = omega arith;
  bounds = (omega arith, omega arith);
}

schedule-IsFair_example :
    (s' : Sched) × (ys : List ℕ) × (schedule 1 2 2 (scene 6 1) ≡ some s')
    × IsFair 1 2 s' ys
    × Perm (s'.current ∷ ys) (12 ∷ 10 ∷ 11 ∷ [])
    × (vrun_time_of s' ≡ vrun_time_of (scene 6 1))
schedule-IsFair_example =
    schedule-IsFair 1 2 2 (scene-Running 6 1 (omega arith)) refl (omega arith) (omega arith)

schedule_keeps_blocked_example :
    (s' : Sched) × (schedule 1 2 2 (scene 3 4) ≡ some s')
    × (s'.current ≡ 12)
    × ((s'.task 12).state ≡ 4)
    × (s'.registers ≡ 77)
schedule_keeps_blocked_example =
    schedule_keeps_blocked 1 2 2 (scene-Running 3 4 (omega arith)) (omega arith) (omega arith)

odd_slice_not_refilled_example :
    (asked (λ i. 10) 4 (scene 3 1) ≡ ticks 4 (scene 3 1))
    × ((left : ℕ) × ((ticks 5 (ticks 2 (scene 3 1))).exec_task_jiffies ≡ negsuc left))
odd_slice_not_refilled_example = odd_slice_not_refilled 1 5 4 (scene 3 1) (λ i. 10) refl refl

insert_task_queue_lem_example :
    (insert_task_queue 1 2 3 (scene 6 1) 12 ≡ some (inserted 1 2 (scene 6 1) 12 (10 ∷ 11 ∷ [])))
    × IsQueue 1 2 (inserted 1 2 (scene 6 1) 12 (10 ∷ 11 ∷ [])) (10 ∷ 12 ∷ 11 ∷ [])
insert_task_queue_lem_example =
    insert_task_queue_lem 1 2 3 12 (scene-IsQueue 6 1) (omega arith)
      (omega arith, (omega arith, (omega arith, tt))) (omega arith) (omega arith)

semaphore_up_wakes_example :
    (m' : Semaphore) × (ys : List ℕ) × (semaphore_up 1 2 3 3 (scene_semaphore 6) ≡ some m')
    × IsSemaphore 1 2 3 m' ys []
    × Perm ys (13 ∷ 10 ∷ 11 ∷ [])
    × ((m'.wait.sched.task 13).state ≡ task_running)
    × (m'.counter ≡ 0)
semaphore_up_wakes_example =
    semaphore_up_wakes 1 2 3 3 (scene-IsSemaphore 6)
      (record {
        not_idle = omega arith;
        not_queued = (omega arith, (omega arith, (omega arith, tt)));
        not_entry = (omega arith, (omega arith, tt));
        bound = omega arith;
      })
      (omega arith)

fresh : IsFresh 1 2 3 (10 ∷ 11 ∷ []) (20 ∷ []) 21
fresh = record {
  off_queue = (omega arith, (omega arith, (omega arith, tt)));
  off_list = (omega arith, (omega arith, tt));
}

semaphore_down_sleeps_example :
    (m' : Semaphore) × (semaphore_down 1 2 3 3 (scene_semaphore 6) 21 ≡ some m')
    × (m'.wait.sched.current ≡ 10)
    × IsQueue 1 2 m'.wait.sched (11 ∷ [])
    × IsRing m'.wait.sched.links 3 (20 ∷ 21 ∷ [])
    × (m'.counter ≡ 0)
    × (m'.wait.tsk 21 ≡ 12)
semaphore_down_sleeps_example =
    semaphore_down_sleeps 1 2 3 3 21 (scene-IsSemaphore 6) fresh (scene-Running 6 1 (omega arith))
      refl (omega arith)

semaphore_down_returns_early_example :
    (m' : Semaphore) × (semaphore_down 1 2 3 3 (scene_semaphore 3) 21 ≡ some m')
    × (m'.wait.sched.current ≡ 12)
    × (m'.wait.sched.registers ≡ 77)
    × (m'.counter ≡ 0)
semaphore_down_returns_early_example =
    semaphore_down_returns_early 1 2 3 3 21 (scene-IsSemaphore 3) fresh
      (scene-Running 3 1 (omega arith)) refl (omega arith) (omega arith)
