-- ===== src/Tests/Objects.antt =====
-- The theorems on slab_init and slab_free.
use native.Mathlib.Nat.{one-le-pow}
use mine_os.Prelude.{◌*◌, ◌/◌, ◌^◌, ◌≡◌, arith, []}
use mine_os.Memory.Slab.{Heap, page_2m_size}
use mine_os.Memory.Slab.Invariant.{IsCache}
use mine_os.Memory.Slab.Init.{slab_init}
use mine_os.Memory.Slab.Ready.{slab_init_lem}
use mine_os.Memory.Slab.Padded.{Padded}
use mine_os.Tests.Heap.{heap}

-- The sizes of kmalloc_cache_size.
abbrev sized : Heap
sized = record heap {
  caches = λ i. record { size = 32 * 2 ^ i; total_using = 0; total_free = 0; cache_pool = 0 };
}

slab_init_example :
    IsCache (slab_init 0x3010_0000 sized).1 3 []
    × (((slab_init 0x3010_0000 sized).1.caches 3).total_free
        ≡ page_2m_size / ((slab_init 0x3010_0000 sized).1.caches 3).size)
slab_init_example =
    slab_init_lem 0x3010_0000 sized (omega arith) (omega arith)
      (λ j. omega (arith, one-le-pow j 2 (omega arith))) (λ a i. ground arith) 3 (omega arith)

-- A cache at 300 whose pool, at 8, has one of two blocks taken.
abbrev owned : Heap
owned = record heap {
  links = record { prev = λ q. q; next = λ q. q };
  slabs = λ q. record {
    page = 8;
    using_count = 3;
    free_count = 1;
    vaddress = 8 * 2 ^ 21;
    color_length = 4;
    color_count = 2;
    color_map = 200;
  };
  caches = λ i. record { size = 2 ^ 20; total_using = 1; total_free = 1; cache_pool = 8 };
}
