-- ===== src/Tasks.antt =====
-- kernel/task.c: new tasks, over kmalloc and the run queue.
--
-- A task is its address, as in the scheduler. The nodes of the slabs and of the tasks are different
-- memory. The registers saved at the top of a task's stack are by their address.
pub mod Fork
use mine_os.Prelude.{ℕ, zero, ◌+◌, ◌-◌, Bool, Option, none, some, ◌==◌, if◌then◌else◌, bit_or}
use mine_os.Links.{update, list_init}
use mine_os.Memory.Slab.{Heap, kmalloc}
use mine_os.Sched.{Sched, Task, task_running, task_uninterruptible, set_task, insert_task_queue}

abbrev pub stack_size : ℕ
stack_size = 32768

-- sizeof(struct pt_regs)
abbrev pub sizeof_pt_regs : ℕ
sizeof_pt_regs = 72

-- The registers by their index in uregs.
abbrev pub PtRegs : Type 0
PtRegs = ℕ → ℕ

abbrev pub arm_sp : ℕ
arm_sp = 13

abbrev pub arm_pc : ℕ
arm_pc = 15

abbrev pub arm_cpsr : ℕ
arm_cpsr = 16

pub record Tasks : Type 0 where
  pub heap : Heap
  pub sched : Sched
  pub pid : ℕ → ℕ
  pub cpu_id : ℕ → ℕ
  pub pt_regs : ℕ → PtRegs

-- The top of the stack, less the saved registers.
abbrev pub stack_top : ℕ → ℕ
stack_top tsk = tsk + stack_size - sizeof_pt_regs

abbrev pub set_state : Sched → ℕ → ℕ → Sched
set_state s tsk state = set_task s tsk (record (s.task tsk) { state = state })

-- `context_of` makes a saved context of a pc and an sp, the rest of which is 0.
module _ (queue init_task : ℕ) (context_of : ℕ → ℕ → ℕ) where
  -- The task_struct of the new task, before it goes to the run queue.
  unfoldable pub copy_task : PtRegs → ℕ → Tasks → Tasks
  copy_task regs tsk k =
      let s = k.sched in
      let regs' = update regs arm_sp (stack_top tsk) in
      let t = record (s.task s.current) {
        priority = 2;
        state = task_uninterruptible;
        vrun_time = 0;
      } in
      let s₁ = set_task (record s { links = list_init s.links tsk }) tsk t in
      record k {
        sched =
            set_state
              (record s₁ {
                context = update s.context tsk (context_of (regs' arm_pc) (regs' arm_sp));
              })
              tsk task_running;
        pid = update k.pid tsk (k.pid s.current + 1);
        cpu_id = update k.cpu_id tsk 0;
        pt_regs = update k.pt_regs (stack_top tsk) regs';
      }

  -- `none` is the use of the null pointer that kmalloc returned, or that a loop ran out of fuel.
  -- The value returned is 1.
  unfoldable pub do_fork : ℕ → ℕ → PtRegs → Tasks → Option Tasks
  do_fork depth fuel regs k = elim (kmalloc depth fuel stack_size k.heap) [
    | none ↦ none
    | some (tsk, heap) ↦
        let k₁ = copy_task regs tsk (record k { heap = heap }) in
        elim (insert_task_queue queue init_task fuel k₁.sched tsk) [
          | none ↦ none
          | some s ↦ some (record k₁ { sched = s })
        ]
  ]

  -- The addresses of the two assembly routines are arguments.
  unfoldable pub kernel_thread : ℕ → ℕ → ℕ → ℕ → ℕ → ℕ → Tasks → Option Tasks
  kernel_thread helper exit depth fuel fn arg k =
      let mode : ℕ = 0x13 in
      let regs : PtRegs = λ r.
        if r == 4
        then arg
        else (if r == 5
            then fn
            else (if r == 6
                then exit
                else (if r == 7
                    then mode
                    else (if r == arm_pc
                        then helper
                        else (if r == arm_cpsr then bit_or mode 0x80 else 0))))) in
      do_fork depth fuel regs k
