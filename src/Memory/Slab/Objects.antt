-- ===== src/Memory/Slab/Objects.antt =====
-- mm/memory.c: slab_create and slab_malloc, over kmalloc and kfree.
--
-- A result is a pointer, with 0 for NULL, and the heap; `none` is that a walk or a kfree ran out of
-- fuel. The constructor of a cache is an argument. Where kmalloc returns NULL nothing is changed.
use mine_os.Prelude.{
  ℕ, zero, suc, ◌+◌, ◌*◌, ◌/◌, ◌%◌, ◌^◌, Option, none, some, ltb, ◌==◌, if◌then◌else◌,
}
use mine_os.Links.{list_init, list_add_to_behind, list_del, list_next}
use mine_os.Memory.{Bytes, plus, alloc_pages, free_pages, page_init}
use mine_os.Memory.Slab.{
  Slab, Cache, Heap, page_2m_size, sizeof_slab, map_length, set_slab, set_map, set_cache,
  take_from_slab, kmalloc,
}
use mine_os.Memory.Slab.Free.{give_page_back, kfree}

-- The room for the constructor and the destructor is in it.
abbrev pub sizeof_slab_cache : ℕ
sizeof_slab_cache = 28

abbrev pub sizeof_long_align : ℕ → ℕ
sizeof_long_align size = (size + 3) % 2 ^ 32 / 4 * 4

abbrev pub try_kmalloc : ℕ → ℕ → ℕ → Heap → ℕ × Heap
try_kmalloc depth fuel size k = elim (kmalloc depth fuel size k) [ none ↦ (0, k) | some r ↦ r ]

-- memset(slab, 0, sizeof(struct Slab)) and list_init. The fields of the list are written twice.
unfoldable pub clean_slab : ℕ → Heap → Heap
clean_slab slab k =
    let s : Slab = record {
      page = 0;
      using_count = 0;
      free_count = 0;
      vaddress = 0;
      color_length = 0;
      color_count = 0;
      color_map = 0;
    } in
    record (set_slab k slab s) { links = list_init k.links slab }

-- The struct of a slab of `size`, with the page. All of its blocks are counted in using_count too.
abbrev pub own_slab : ℕ → ℕ → ℕ → ℕ → Heap → Slab
own_slab size page length map k = record {
  page = page;
  using_count = page_2m_size / size;
  free_count = page_2m_size / size;
  vaddress = (k.mms.pages page).phy_address;
  color_length = length;
  color_count = page_2m_size / size;
  color_map = map;
}

abbrev pub zero_map : ℕ → Bytes → Bytes
zero_map length m p = if ltb p length then 0 else m p

-- kfree and a return of NULL.
abbrev pub free_and_fail : ℕ → ℕ → ℕ → Heap → Option (ℕ × Heap)
free_and_fail depth fuel a k = elim (kfree depth fuel a k) [ none ↦ none | some k' ↦ some (0, k') ]

abbrev pub free_both : ℕ → ℕ → ℕ → ℕ → Heap → Option (ℕ × Heap)
free_both depth fuel a b k = elim (kfree depth fuel a k) [
  | none ↦ none
  | some k' ↦ free_and_fail depth fuel b k'
]

-- slab_create from the page on; the color_length is the value of a comma expression. The pool has
-- no other name in the heap than through the cache.
unfoldable pub create_pool : ℕ → ℕ → ℕ → ℕ → ℕ → Heap → Option (ℕ × Heap)
create_pool depth fuel cache pool size k = elim (alloc_pages 2 1 0 k.mms) [
  | none ↦ free_both depth fuel pool cache k
  | some (page, m) ↦
      let k₁ = record k { mms = page_init m page 8 } in
      let (map, k₂) = try_kmalloc depth fuel 4 k₁ in
      let k₃ = set_slab k₂ pool (own_slab size page 4 map k₂) in
      let c = record (k₃.caches cache) { total_free = page_2m_size / size } in
      let k₄ = set_cache k₃ cache c in
      if map == 0
      then free_both depth fuel pool cache (record k₄ { mms = free_pages page 1 k₄.mms })
      else some (cache, set_map k₄ map (zero_map 4 (k₄.maps map)))
]

unfoldable pub slab_create : ℕ → ℕ → ℕ → Heap → Option (ℕ × Heap)
slab_create depth fuel size k =
    let (cache, k₁) = try_kmalloc depth fuel sizeof_slab_cache k in
    let (pool, k₂) = try_kmalloc depth fuel sizeof_slab k₁ in
    let c : Cache = record {
      size = sizeof_long_align size;
      total_using = 0;
      total_free = 0;
      cache_pool = pool;
    } in
    let k₃ = set_cache k₂ cache c in
    if cache == 0
    then some (0, k₁)
    else (if pool == 0
        then free_and_fail depth fuel cache k₃
        else create_pool depth fuel cache pool (sizeof_long_align size) (clean_slab pool k₃))

-- A new slab for a cache, put behind its pool; 0 is NULL.
unfoldable pub add_slab : ℕ → ℕ → ℕ → Heap → Option (ℕ × Heap)
add_slab depth fuel cache k =
    let (slab, k₁) = try_kmalloc depth fuel sizeof_slab k in
    let k₂ = clean_slab slab k₁ in
    let size = (k₂.caches cache).size in
    let length = map_length (page_2m_size / size) in
    if slab == 0 then some (0, k₁) else elim (alloc_pages 2 1 0 k₂.mms) [
      | none ↦ free_and_fail depth fuel slab k₂
      | some (page, m) ↦
          let k₃ = record k₂ { mms = page_init m page 8 } in
          let (map, k₄) = try_kmalloc depth fuel length k₃ in
          let k₅ = set_slab k₄ slab (own_slab size page length map k₄) in
          let c = k₅.caches cache in
          let k₆ = set_map k₅ map (zero_map length (k₅.maps map)) in
          let k₇ = record k₆ { links = list_add_to_behind k₆.links c.cache_pool slab } in
          if map == 0
          then free_and_fail depth fuel slab (record k₅ { mms = free_pages page 1 k₅.mms })
          else some (
            slab,
            set_cache k₇ cache (record c { total_free = plus c.total_free (page_2m_size / size) }),
          )
    ]

-- The walk of slab_malloc, which does not stop at the pool.
unfoldable pub find_free : ℕ → ℕ → Heap → Option ℕ
find_free zero slab k = none
find_free (suc fuel) slab k =
    let rest = find_free fuel (list_next k.links slab) k in
    if (k.slabs slab).free_count == 0 then rest else some slab

-- A slab nothing of which is in use is released with its map.
unfoldable pub drop_slab : ℕ → ℕ → ℕ → Heap → Option Heap
drop_slab depth fuel slab k =
    elim (kfree depth fuel (k.slabs slab).color_map (record k { links = list_del k.links slab })) [
      | none ↦ none
      | some k₁ ↦ kfree depth fuel slab (give_page_back slab k₁)
    ]

-- The end of slab_malloc: `constructor` is that of the cache, none if it is NULL.
unfoldable pub construct :
    ℕ → ℕ → Option (ℕ → ℕ → Heap → ℕ × Heap) → ℕ → ℕ → ℕ → Heap → Option (ℕ × Heap)
construct depth fuel constructor cache arg slab k =
    let dropped = drop_slab depth fuel slab k in
    elim (take_from_slab cache slab k) [
      | some (address, k₁) ↦ elim constructor [
        | some make ↦ some (make address arg k₁)
        | none ↦ some (address, k₁)
      ]
      | none ↦
          if (k.slabs slab).using_count == 0
          then elim dropped [ none ↦ none | some k₁ ↦ some (0, k₁) ]
          else some (0, k)
    ]

unfoldable pub slab_malloc :
    ℕ → ℕ → Option (ℕ → ℕ → Heap → ℕ × Heap) → ℕ → ℕ → Heap → Option (ℕ × Heap)
slab_malloc depth fuel constructor cache arg k =
    let c = k.caches cache in
    let added = add_slab depth fuel cache k in
    let found = find_free fuel c.cache_pool k in
    if c.total_free == 0
    then elim added [
      | none ↦ none
      | some (slab, k₁) ↦
          let r = construct depth fuel constructor cache arg slab k₁ in
          if slab == 0 then some (0, k₁) else r
    ]
    else elim found [ none ↦ none | some slab ↦ construct depth fuel constructor cache arg slab k ]
