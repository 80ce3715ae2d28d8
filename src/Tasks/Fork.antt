-- ===== src/Tasks/Fork.antt =====
-- kernel/task.c: what do_fork makes.
use mine_os.Prelude.{
  ℕ, ◌+◌, ◌<◌, ◌≡◌, ◌≢◌, ◌∙◌, refl, ap, subst, List, [], ◌∷◌, some, arith, length, All,
}
use mine_os.Links.{update}
use mine_os.Links.Ring.{NotIn}
use mine_os.Links.Splice.{update_self, update_ne, IsRing-list_init}
use mine_os.Links.Sorted.{IsSorted-cong, enqueue_zero}
use mine_os.Memory.Slab.{Heap, kmalloc}
use mine_os.Sched.{Sched, Task, vrun_time_of, task_running, task_uninterruptible}
use mine_os.Sched.Queue.{IsQueue, enqueue, inserted, insert_task_queue_lem}
use mine_os.Tasks.{Tasks, PtRegs, stack_size, stack_top, arm_pc, arm_sp, copy_task, do_fork}

module _ (queue init_task : ℕ) (context_of : ℕ → ℕ → ℕ) where
  same_times :
      (s s' : Sched) (tsk : ℕ) (xs : List ℕ)
      → ((t : ℕ) → tsk ≢ t → s'.task t ≡ s.task t)
      → NotIn tsk xs
      → All (λ x. vrun_time_of s' x ≡ vrun_time_of s x) xs
  same_times s s' tsk [] h n = tt
  same_times s s' tsk (x ∷ xs) h n =
      (ap (λ (t : Task). t.vrun_time) (h x n.0), same_times s s' tsk xs h n.1)

  copy_task_task :
      (regs : PtRegs) (tsk : ℕ) (k : Tasks)
      → ((copy_task queue init_task context_of regs tsk k).sched.task tsk
          ≡ record (k.sched.task k.sched.current) {
            state = task_running;
            priority = 2;
            vrun_time = 0;
          })
        × ((t : ℕ)
            → tsk ≢ t
            → (copy_task queue init_task context_of regs tsk k).sched.task t ≡ k.sched.task t)
  unfolding copy_task
  copy_task_task regs tsk k =
      let old = k.sched.task k.sched.current in
      let t : Task = record old { priority = 2; state = task_uninterruptible; vrun_time = 0 } in
      let made = update_self k.sched.task tsk t in
      (
        update_self (update k.sched.task tsk t) tsk _
            ∙ (λ i. record (made i) { state = task_running }),
        λ u n. update_ne (update k.sched.task tsk t) tsk _ u n ∙ update_ne k.sched.task tsk t u n,
      )

  copy_task-IsQueue :
      (regs : PtRegs) (tsk : ℕ) (k : Tasks) (xs : List ℕ)
      → IsQueue queue init_task k.sched xs
      → NotIn tsk (queue ∷ xs)
      → IsQueue queue init_task (copy_task queue init_task context_of regs tsk k).sched xs
  unfolding copy_task
  copy_task-IsQueue regs tsk k xs q fresh =
      let s' = (copy_task queue init_task context_of regs tsk k).sched in
      let same = (copy_task_task regs tsk k).1 in
      record {
        ring = IsRing-list_init tsk q.ring fresh;
        sorted =
            IsSorted-cong (vrun_time_of k.sched) (vrun_time_of s') xs
              (same_times k.sched s' tsk xs same fresh.1) q.sorted;
        sentinel = ap (λ (t : Task). t.vrun_time) (same queue fresh.0) ∙ q.sentinel;
        count = q.count;
      }

  kept_current :
      (regs : PtRegs) (tsk : ℕ) (k : Tasks)
      → (copy_task queue init_task context_of regs tsk k).sched.current ≡ k.sched.current
  unfolding copy_task
  kept_current regs tsk k = refl

  copy_pid :
      (regs : PtRegs) (tsk : ℕ) (k : Tasks)
      → (copy_task queue init_task context_of regs tsk k).pid tsk ≡ k.pid k.sched.current + 1
  unfolding copy_task
  copy_pid regs tsk k = update_self k.pid tsk (k.pid k.sched.current + 1)

  copy_pid_other :
      (regs : PtRegs) (tsk : ℕ) (k : Tasks) (t : ℕ)
      → tsk ≢ t
      → (copy_task queue init_task context_of regs tsk k).pid t ≡ k.pid t
  unfolding copy_task
  copy_pid_other regs tsk k t n = update_ne k.pid tsk _ t n

  copy_context :
      (regs : PtRegs) (tsk : ℕ) (k : Tasks)
      → (copy_task queue init_task context_of regs tsk k).sched.context tsk
        ≡ context_of (regs arm_pc) (stack_top tsk)
  unfolding copy_task
  copy_context regs tsk k = update_self k.sched.context tsk _

  copy_saved :
      (regs : PtRegs) (tsk : ℕ) (k : Tasks)
      → (copy_task queue init_task context_of regs tsk k).pt_regs (stack_top tsk)
        ≡ update regs arm_sp (stack_top tsk)
  unfolding copy_task
  copy_saved regs tsk k = update_self k.pt_regs (stack_top tsk) _

  first_place :
      (s : Sched) (tsk : ℕ) (xs : List ℕ)
      → vrun_time_of s tsk ≡ 0
      → enqueue queue init_task s tsk xs ≡ tsk ∷ xs
  first_place s tsk xs e =
      rw (e, (enqueue_zero (vrun_time_of s) xs).0, (enqueue_zero (vrun_time_of s) xs).1) refl

  -- What a fork leaves: the new task, at tsk, can run, is first in the queue, and has a pid one above
  -- that of the running task, to which nothing was done.
  pub record Forked (k k' : Tasks) (tsk : ℕ) (xs : List ℕ) (regs : PtRegs) : Type 0 where
    pub runs : IsQueue queue init_task k'.sched (tsk ∷ xs)
    pub task : k'.sched.task tsk ≡ record (k.sched.task k.sched.current) {
      state = task_running;
      priority = 2;
      vrun_time = 0;
    }
    pub other : (t : ℕ) → tsk ≢ t → k'.sched.task t ≡ k.sched.task t
    pub current : k'.sched.current ≡ k.sched.current
    pub pid : k'.pid tsk ≡ k.pid k.sched.current + 1
    pub other_pid : (t : ℕ) → tsk ≢ t → k'.pid t ≡ k.pid t
    pub context : k'.sched.context tsk ≡ context_of (regs arm_pc) (stack_top tsk)
    pub saved : k'.pt_regs (stack_top tsk) ≡ update regs arm_sp (stack_top tsk)

  -- Where kmalloc returns a block that is no task of the run queue, do_fork returns: the block is a
  -- copy of the running task that can run, with a pid one higher, first in the run queue, and its
  -- context leads to the pc of the registers with the stack below the saved ones.
  pub do_fork_lem :
      (depth fuel : ℕ) (regs : PtRegs) (k : Tasks) (tsk : ℕ) (heap : Heap) (xs : List ℕ)
      → kmalloc depth fuel stack_size k.heap ≡ some (tsk, heap)
      → IsQueue queue init_task k.sched xs
      → tsk ≢ init_task
      → NotIn tsk (queue ∷ xs)
      → length xs < fuel
      → (k' : Tasks) × (do_fork queue init_task context_of depth fuel regs k ≡ some k')
        × Forked k k' tsk xs regs
  unfolding do_fork
  do_fork_lem depth fuel regs k tsk heap xs e q ne fresh f =
      let k₁ = copy_task queue init_task context_of regs tsk (record k { heap = heap }) in
      let made = copy_task_task regs tsk (record k { heap = heap }) in
      let time : vrun_time_of k₁.sched tsk ≡ 0 = ap (λ (t : Task). t.vrun_time) made.0 in
      let r =
        insert_task_queue_lem queue init_task fuel tsk
          (copy_task-IsQueue regs tsk (record k { heap = heap }) xs q fresh) ne fresh
          (omega (arith, time)) f in
      let front : enqueue queue init_task k₁.sched tsk xs ≡ tsk ∷ xs =
        first_place k₁.sched tsk xs time in
      (
        record k₁ { sched = inserted queue init_task k₁.sched tsk xs },
        rw (do_fork, e, r.0) refl,
        record {
          runs =
              subst (IsQueue queue init_task (inserted queue init_task k₁.sched tsk xs)) front r.1;
          task = made.0;
          other = made.1;
          current = kept_current regs tsk (record k { heap = heap });
          pid = copy_pid regs tsk (record k { heap = heap });
          other_pid = copy_pid_other regs tsk (record k { heap = heap });
          context = copy_context regs tsk (record k { heap = heap });
          saved = copy_saved regs tsk (record k { heap = heap });
        },
      )
