-- ===== src/Memory/Slab/Destroy.antt =====
-- mm/memory.c: slab_free and slab_destroy.
use mine_os.Prelude.{
  ℕ, zero, suc, ◌+◌, ◌-◌, ◌*◌, ◌/◌, ◌%◌, ◌^◌, Bool, ◌&&◌, Option, none, some, ltb, leb, ◌==◌,
  if◌then◌else◌,
}
use mine_os.Links.{list_next, list_is_empty}
use mine_os.Memory.{minus}
use mine_os.Memory.Slab.{Slab, Heap, page_2m_size, set_cache}
use mine_os.Memory.Slab.Free.{give_page_back, put_color, kfree}
use mine_os.Memory.Slab.Objects.{drop_slab}

-- vaddress ≤ address < vaddress + PAGE_2M_SIZE, on pointers.
abbrev pub holds_address : Slab → ℕ → Bool
holds_address s address =
    leb s.vaddress address && ltb address ((s.vaddress + page_2m_size) % 2 ^ 32)

-- The walk of slab_free: the slab of the address, or `some none` where it is back at the pool.
unfoldable pub slab_holding : ℕ → ℕ → ℕ → ℕ → Heap → Option (Option ℕ)
slab_holding zero pool address slab k = none
slab_holding (suc fuel) pool address slab k =
    let next = list_next k.links slab in
    let rest = slab_holding fuel pool address next k in
    if holds_address (k.slabs slab) address
    then some (some slab)
    else (if next == pool then some none else rest)

-- Nothing of the slab is in use and there are enough free blocks; the pool is not left out.
abbrev pub is_dropped : ℕ → ℕ → Heap → Bool
is_dropped cache slab k =
    let s = k.slabs slab in
    s.using_count == 0 && leb (s.color_count * 3 % 2 ^ 32 / 2) (k.caches cache).total_free

abbrev pub destroyed : Option (ℕ → ℕ → Heap → Heap) → ℕ → ℕ → Heap → Heap
destroyed none address arg k = k
destroyed (some destroy) address arg k = destroy address arg k

-- The heap after the block is given back and the destructor has run on it.
abbrev pub returned : Option (ℕ → ℕ → Heap → Heap) → ℕ → ℕ → ℕ → ℕ → Heap → Heap
returned destructor cache address arg slab k =
    let s = k.slabs slab in
    let c = k.caches cache in
    let index = (address + 2 ^ 32 - s.vaddress) % 2 ^ 32 / c.size in
    destroyed destructor ((s.vaddress + c.size * index) % 2 ^ 32) arg
      (put_color cache slab address k)

-- The value returned, and the heap.
unfoldable pub slab_free :
    ℕ → ℕ → Option (ℕ → ℕ → Heap → Heap) → ℕ → ℕ → ℕ → Heap → Option (ℕ × Heap)
slab_free depth fuel destructor cache address arg k =
    let pool = (k.caches cache).cache_pool in
    elim (slab_holding fuel pool address pool k) [
      | none ↦ none
      | some none ↦ some (0, k)
      | some (some slab) ↦
          let k₁ = returned destructor cache address arg slab k in
          let c = k₁.caches cache in
          let k₂ =
            set_cache k₁ cache
              (record c { total_free = minus c.total_free (k₁.slabs slab).color_count }) in
          let dropped = drop_slab depth fuel slab k₂ in
          if is_dropped cache slab k₁
          then elim dropped [ none ↦ none | some k₃ ↦ some (1, k₃) ]
          else some (1, k₁)
    ]

-- The loop of slab_destroy; it reads the list node of the slab that it has just freed.
unfoldable pub drop_all : ℕ → ℕ → ℕ → Heap → Option (ℕ × Heap)
drop_all depth zero slab k = none
drop_all depth (suc fuel) slab k =
    if list_is_empty k.links slab
    then some (slab, k)
    else elim (drop_slab depth (suc fuel) slab k) [
      | none ↦ none
      | some k₁ ↦ drop_all depth fuel (list_next k₁.links slab) k₁
    ]

-- The last slab, which is in no list, and then the struct of the cache.
unfoldable pub drop_last : ℕ → ℕ → ℕ → ℕ → Heap → Option Heap
drop_last depth fuel cache slab k = elim (kfree depth fuel (k.slabs slab).color_map k) [
  | none ↦ none
  | some k₁ ↦ elim (kfree depth fuel slab (give_page_back slab k₁)) [
    | none ↦ none
    | some k₂ ↦ kfree depth fuel cache k₂
  ]
]

-- The value returned, and the heap; the hooks are not run.
unfoldable pub slab_destroy : ℕ → ℕ → ℕ → Heap → Option (ℕ × Heap)
slab_destroy depth fuel cache k =
    let c = k.caches cache in
    let left = drop_all depth fuel c.cache_pool k in
    if c.total_using == 0
    then elim left [
      | none ↦ none
      | some (slab, k₁) ↦ elim (drop_last depth fuel cache slab k₁) [
        | none ↦ none
        | some k₂ ↦ some (1, k₂)
      ]
    ]
    else some (0, k)
