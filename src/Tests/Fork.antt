-- ===== src/Tests/Fork.antt =====
-- The theorem on do_fork: a heap whose caches have the sizes of kmalloc_cache_size and one slab, at
-- 5, in which a block is free.
use mine_os.Prelude.{ℕ, ◌+◌, ◌*◌, ◌^◌, ◌≡◌, refl, some, arith, [], ◌∷◌, ◌==◌, if◌then◌else◌}
use mine_os.Memory.Slab.{Heap, kmalloc, take_color}
use mine_os.Tasks.{Tasks, PtRegs, do_fork}
use mine_os.Tasks.Fork.{Forked, do_fork_lem}
use mine_os.Tests.{scene, scene-IsQueue}
use mine_os.Tests.Heap.{heap}

abbrev task_heap : Heap
task_heap = record heap {
  slabs = λ q. record {
    page = 385;
    using_count = 1;
    free_count = 1;
    vaddress = 385 * 2 ^ 21;
    color_length = 4;
    color_count = 2;
    color_map = 200;
  };
  caches = λ i. record { size = 32 * 2 ^ i; total_using = 1; total_free = 1; cache_pool = 5 };
}

abbrev tasks : Tasks
tasks = record {
  heap = task_heap;
  sched = scene 0 1;
  pid = λ t. 0;
  cpu_id = λ t. 0;
  pt_regs = λ t r. 0;
}

abbrev registers : PtRegs
registers r = if r == 15 then 0x3000_8000 else 0

-- The second block of 32 KB.
abbrev new_task : ℕ
new_task = 385 * 2 ^ 21 + 32768

taken : kmalloc 1 3 32768 task_heap ≡ some (new_task, (take_color 10 5 1 task_heap).1)
unfolding kmalloc mine_os.Memory.Slab.find_cache mine_os.Memory.Slab.find_slab
    mine_os.Memory.Slab.take_from_slab mine_os.Memory.Slab.find_color take_color
    mine_os.Memory.long_at
taken = refl

do_fork_example :
    (k' : Tasks) × (do_fork 1 2 (λ pc sp. pc) 1 3 registers tasks ≡ some k')
    × Forked 1 2 (λ pc sp. pc) tasks k' new_task (10 ∷ 11 ∷ []) registers
do_fork_example =
    do_fork_lem 1 2 (λ pc sp. pc) 1 3 registers tasks new_task (take_color 10 5 1 task_heap).1
      (10 ∷ 11 ∷ []) taken (scene-IsQueue 0 1) (λ e. omega (arith, e))
      ((λ e. omega (arith, e)), ((λ e. omega (arith, e)), ((λ e. omega (arith, e)), tt)))
      (omega arith)
