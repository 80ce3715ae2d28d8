-- ===== src/Memory/Slab/Init.antt =====
-- mm/memory.c: slab_init. mms.end_of_struct, from which the pools and their maps are taken, is
-- passed beside the heap; the offset between virtual and physical addresses is 0.
use mine_os.Prelude.{ℕ, zero, suc, ◌+◌, ◌-◌, ◌*◌, ◌/◌, ◌%◌, ◌^◌}
use mine_os.Links.{list_init}
use mine_os.Memory.{Mms, plus, bit_set, page_2m_num, page_init, set_zone, take_from}
use mine_os.Memory.Slab.{
  Slab, Heap, page_2m_size, sizeof_slab, map_length, set_slab, set_map, set_cache, clear_colors,
  filled_map,
}

-- The pool of a cache of `size`, with its map at `map`; its page comes later.
abbrev pub pool_slab : Slab → ℕ → ℕ → Slab
pool_slab s size map = record s {
  using_count = 0;
  free_count = page_2m_size / size;
  color_length = map_length (page_2m_size / size);
  color_count = page_2m_size / size;
  color_map = map;
}

-- ALIGN(end + length + sizeof(long) * 10, sizeof(long))
abbrev pub behind_map : ℕ → ℕ → ℕ
behind_map end length = plus (plus end (length + 40)) 3 / 4 * 4

-- One round of the first loop.
unfoldable pub init_pool : ℕ → ℕ × Heap → ℕ × Heap
init_pool i (end, k) =
    let c = k.caches i in
    let map = plus end (sizeof_slab + 40) in
    let s = pool_slab (k.slabs end) c.size map in
    let m = clear_colors s.color_count 0 (filled_map s.color_length (k.maps map)) in
    let k₁ = record (set_map (set_slab k end s) map m) { links = list_init k.links end } in
    (
      behind_map map s.color_length,
      set_cache k₁ i (record c { cache_pool = end; total_free = s.color_count; total_using = 0 }),
    )

-- The n caches from i on.
unfoldable pub init_pools : ℕ → ℕ → ℕ × Heap → ℕ × Heap
init_pools zero i r = r
init_pools (suc n) i r = init_pools n (i + 1) (init_pool i r)

-- PG_PTable_Maped | PG_Kernel_Init | PG_Kernel
abbrev pub kernel_page : ℕ
kernel_page = 11

-- A page is marked as in use by the kernel.
abbrev pub use_page : ℕ → Mms → Mms
use_page page m =
    let p = m.pages page in
    let m₁ = record m { bits_map = bit_set m.bits_map (page_2m_num p.phy_address) } in
    page_init (set_zone m₁ p.zone (take_from 1 (m₁.zones p.zone))) page kernel_page

-- The second loop: the n pages from j on.
unfoldable pub use_pages : ℕ → ℕ → Mms → Mms
use_pages zero j m = m
use_pages (suc n) j m = use_pages n (j + 1) (use_page j m)

abbrev pub page_2m_align : ℕ → ℕ
page_2m_align addr = (addr + page_2m_size - 1) % 2 ^ 32 / page_2m_size * page_2m_size

-- One round of the third loop.
abbrev pub place_pool : ℕ → ℕ → Heap → Heap
place_pool end i k =
    let virtual = page_2m_align (end + page_2m_size * i) in
    let page = page_2m_num virtual in
    let pool = (k.caches i).cache_pool in
    set_slab (record k { mms = use_page page k.mms }) pool
      (record (k.slabs pool) { page = page; vaddress = virtual })

unfoldable pub place_pools : ℕ → ℕ → ℕ → Heap → Heap
place_pools zero i end k = k
place_pools (suc n) i end k = place_pools n (i + 1) end (place_pool end i k)

-- The end_of_struct and the heap; the value returned is 1.
unfoldable pub slab_init : ℕ → Heap → ℕ × Heap
slab_init end k =
    let (end', k₁) = init_pools 16 0 (end, k) in
    let first = page_2m_num (page_2m_align end) in
    let pages = page_2m_num end' + 1 - first in
    (end', place_pools 16 0 end' (record k₁ { mms = use_pages pages first k₁.mms }))
