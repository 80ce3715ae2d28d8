-- ===== src/Memory/Slab/Free.antt =====
-- mm/memory.c: kfree.
use mine_os.Prelude.{
  ℕ, zero, suc, ◌+◌, ◌-◌, ◌*◌, ◌/◌, ◌%◌, ◌^◌, Bool, not, ◌&&◌, Option, none, some, leb, ◌==◌,
  if◌then◌else◌,
}
use mine_os.Links.{list_del, list_next}
use mine_os.Memory.{plus, minus, bit_not, free_pages, page_clean}
use mine_os.Memory.Slab.{Heap, page_2m_size, set_slab, set_map, set_cache, is_small}

-- The walk of kfree, to the slab whose memory is at `base`, or back to the pool.
unfoldable pub slab_of : ℕ → ℕ → ℕ → ℕ → Heap → Option ℕ
slab_of zero pool base slab k = none
slab_of (suc fuel) pool base slab k =
    let next = list_next k.links slab in
    let rest = slab_of fuel pool base next k in
    if (k.slabs slab).vaddress == base
    then some slab
    else (if next == pool then some next else rest)

-- A block of a slab of cache i is given back.
unfoldable pub put_color : ℕ → ℕ → ℕ → Heap → Heap
put_color i slab address k =
    let s = k.slabs slab in
    let c = k.caches i in
    let index = (address + 2 ^ 32 - s.vaddress) % 2 ^ 32 / c.size in
    let k₁ = set_map k s.color_map (bit_not (k.maps s.color_map) index) in
    let k₂ =
      set_slab k₁ slab
        (record s { free_count = plus s.free_count 1; using_count = minus s.using_count 1 }) in
    set_cache k₂ i
      (record c { total_free = plus c.total_free 1; total_using = minus c.total_using 1 })

-- Nothing of the slab is in use, it is not the pool, and there are enough free blocks.
abbrev pub is_released : ℕ → ℕ → Heap → Bool
is_released i slab k =
    let s = k.slabs slab in
    let c = k.caches i in
    s.using_count == 0
    && leb (s.color_count * 3 % 2 ^ 32 / 2) c.total_free
    && not (c.cache_pool == slab)

abbrev pub unlink_slab : ℕ → ℕ → Heap → Heap
unlink_slab i slab k =
    let c = k.caches i in
    let k₁ = record k { links = list_del k.links slab } in
    set_cache k₁ i (record c { total_free = minus c.total_free (k.slabs slab).color_count })

abbrev pub give_page_back : ℕ → Heap → Heap
give_page_back slab k =
    let page = (k.slabs slab).page in record k { mms = free_pages page 1 (page_clean k.mms page) }

-- The switch; `free` is kfree.
unfoldable pub release_slab : (ℕ → Heap → Option Heap) → ℕ → ℕ → Heap → Option Heap
release_slab free i slab k =
    let k₁ = unlink_slab i slab k in
    if is_small (k.caches i).size
    then some (give_page_back slab k₁)
    else elim (free (k₁.slabs slab).color_map k₁) [
      | none ↦ none
      | some k₂ ↦ free slab (give_page_back slab k₂)
    ]

-- One round of the loop, for cache i; it ends in `return 1`.
unfoldable pub free_in : (ℕ → Heap → Option Heap) → ℕ → ℕ → ℕ → Heap → Option Heap
free_in free fuel i address k =
    let pool = (k.caches i).cache_pool in
    elim (slab_of fuel pool (address / page_2m_size * page_2m_size) pool k) [
      | none ↦ none
      | some slab ↦
          let k₁ = put_color i slab address k in
          if is_released i slab k₁ then release_slab free i slab k₁ else some k₁
    ]

-- The heap after kfree, which returns 1: its loop returns in the first round, so that only cache
-- 0 is looked at. `depth` is one more than the number of slabs released for the slab of another.
unfoldable pub kfree : ℕ → ℕ → ℕ → Heap → Option Heap
kfree zero fuel address k = none
kfree (suc depth) fuel address k = free_in (kfree depth fuel) fuel 0 address k
