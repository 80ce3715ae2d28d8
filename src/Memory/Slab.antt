-- ===== src/Memory/Slab.antt =====
-- mm/memory.c: kmalloc and kfree over the slabs of the sixteen caches.
--
-- A slab is its address, which is that of its list node; the map of its blocks is bytes at the
-- address of the map, and maps do not overlap. A cache is its index in kmalloc_cache_size, or the
-- address of its struct if slab_create made it. `none` is NULL, or that create_large uses a null
-- pointer. Loops that walk a list run on fuel.
pub mod Free
pub mod Given
pub mod Take
pub mod Invariant
pub mod Blocks
pub mod Kmalloc
pub mod Kfree
pub mod Restore
pub mod RoundTrip
pub mod Fresh
pub mod Grow
pub mod Create
pub mod Objects
pub mod Destroy
pub mod Padded
pub mod Init
pub mod Pools
pub mod Ready
use mine_os.Prelude.{
  ℕ, zero, suc, ◌+◌, ◌-◌, ◌*◌, ◌/◌, ◌%◌, ◌^◌, Bool, true, false, not, ◌&&◌, ◌||◌, Option, none,
  some, ltb, leb, ◌==◌, if◌then◌else◌, bit_and, bit_or, bit_xor,
}
use mine_os.Links.{Links, update, list_init, list_add_to_before, list_del, list_next}
use mine_os.Memory.{
  Mms, Bytes, bits_per_long, plus, minus, bit_set, bit_not, long_at, alloc_pages, free_pages,
  page_init, page_clean,
}

pub record Slab : Type 0 where
  pub page : ℕ
  pub using_count : ℕ
  pub free_count : ℕ
  pub vaddress : ℕ
  pub color_length : ℕ
  pub color_count : ℕ
  pub color_map : ℕ

pub record Cache : Type 0 where
  pub size : ℕ
  pub total_using : ℕ
  pub total_free : ℕ
  pub cache_pool : ℕ

pub record Heap : Type 0 where
  pub mms : Mms
  pub links : Links
  pub slabs : ℕ → Slab
  pub maps : ℕ → Bytes
  pub caches : ℕ → Cache

abbrev pub page_2m_size : ℕ
page_2m_size = 2 ^ 21

-- sizeof(struct Slab)
abbrev pub sizeof_slab : ℕ
sizeof_slab = 36

-- ALIGN(ALIGN(count, 8) / 8, sizeof(unsigned long))
abbrev pub map_length : ℕ → ℕ
map_length count = ((count + 7) / 8 + 3) / 4 * 4

abbrev pub set_slab : Heap → ℕ → Slab → Heap
set_slab k s v = record k { slabs = update k.slabs s v }

abbrev pub set_map : Heap → ℕ → Bytes → Heap
set_map k a v = record k { maps = update k.maps a v }

abbrev pub set_cache : Heap → ℕ → Cache → Heap
set_cache k i v = record k { caches = update k.caches i v }

-- The loop over the sizes, from cache i on with n left; past the last one the index is 16.
unfoldable pub find_cache : (ℕ → Cache) → ℕ → ℕ → ℕ → ℕ
find_cache caches size zero i = i
find_cache caches size (suc n) i =
    let rest = find_cache caches size n (i + 1) in if leb size (caches i).size then i else rest

-- The walk to a slab with a free block; `none` where it is back at the first slab.
unfoldable pub find_slab : ℕ → ℕ → ℕ → Heap → Option ℕ
find_slab zero pool slab k = none
find_slab (suc fuel) pool slab k =
    let next = list_next k.links slab in
    let rest = find_slab fuel pool next k in
    if (k.slabs slab).free_count == 0 then (if next == pool then none else rest) else some slab

-- The search for a clear bit from j on, with n rounds left. A long has 32 bits, so that no one is
-- 0xffffffffffffffff.
unfoldable pub find_color : Bytes → ℕ → ℕ → ℕ → Option ℕ
find_color m count zero j = none
find_color m count (suc n) j =
    let skip = find_color m count n (j + bits_per_long) in
    let next = find_color m count n (j + 1) in
    if leb count j
    then none
    else (if long_at m (j / bits_per_long) == 0xffff_ffff_ffff_ffff
        then skip
        else (if bit_and (long_at m (j / bits_per_long)) (2 ^ (j % bits_per_long)) == 0
            then some j
            else next))

-- A block of a slab of cache i is taken.
unfoldable pub take_color : ℕ → ℕ → ℕ → Heap → ℕ × Heap
take_color i slab j k =
    let s = k.slabs slab in
    let c = k.caches i in
    let k₁ = set_map k s.color_map (bit_set (k.maps s.color_map) j) in
    let k₂ =
      set_slab k₁ slab
        (record s { using_count = plus s.using_count 1; free_count = minus s.free_count 1 }) in
    let k₃ =
      set_cache k₂ i
        (record c { total_free = minus c.total_free 1; total_using = plus c.total_using 1 }) in
    ((s.vaddress + c.size * j) % 2 ^ 32, k₃)

unfoldable pub take_from_slab : ℕ → ℕ → Heap → Option (ℕ × Heap)
take_from_slab i slab k =
    let s = k.slabs slab in
    elim (find_color (k.maps s.color_map) s.color_count s.color_count 0) [
      | none ↦ none
      | some j ↦ some (take_color i slab j k)
    ]

-- The memset of the map to 0xff, and then BIT_NOT of the n bits from j on.
unfoldable pub clear_colors : ℕ → ℕ → Bytes → Bytes
clear_colors zero j m = m
clear_colors (suc n) j m = clear_colors n (j + 1) (bit_not m j)

abbrev pub filled_map : ℕ → Bytes → Bytes
filled_map length m p = if ltb p length then 0xff else m p

-- The end of kmalloc_create: the map, the address and the page of the new slab, and its list.
unfoldable pub finish_slab : ℕ → ℕ → Heap → ℕ × Heap
finish_slab page slab k =
    let s = record (k.slabs slab) { vaddress = (k.mms.pages page).phy_address; page = page } in
    let m = clear_colors s.color_count 0 (filled_map s.color_length (k.maps s.color_map)) in
    (slab, record (set_map (set_slab k slab s) s.color_map m) { links = list_init k.links slab })

-- The sizes of the first case, whose slab and map stand in the page itself.
abbrev pub is_small : ℕ → Bool
is_small size = size == 32 || size == 64 || size == 128 || size == 256 || size == 512

-- Those of the second, whose slab and map are allocated.
abbrev pub is_large : ℕ → Bool
is_large size =
    size == 1024
    || size == 2048
    || size == 4096
    || size == 8192
    || size == 16384
    || size == 32768
    || size == 65536
    || size == 131072
    || size == 262144
    || size == 524288
    || size == 1048576

abbrev pub new_slab : Slab → ℕ → ℕ → Slab
new_slab s count map = record s {
  free_count = count;
  using_count = 0;
  color_count = count;
  color_length = map_length count;
  color_map = map;
}

unfoldable pub create_small : ℕ → ℕ → Heap → ℕ × Heap
create_small size page k =
    let structsize = sizeof_slab + page_2m_size / size / 8 in
    let slab = (k.mms.pages page).phy_address + page_2m_size - structsize in
    let count = (page_2m_size - structsize) / size in
    finish_slab page slab (set_slab k slab (new_slab (k.slabs slab) count (slab + sizeof_slab)))

-- `alloc` is kmalloc.
unfoldable pub create_large : (ℕ → Heap → Option (ℕ × Heap)) → ℕ → ℕ → Heap → Option (ℕ × Heap)
create_large alloc size page k = elim (alloc sizeof_slab k) [
  | none ↦ none
  | some (slab, k₁) ↦
      let count = page_2m_size / size in
      elim (alloc (map_length count) k₁) [
        | none ↦ none
        | some (map, k₂) ↦
            some (finish_slab page slab (set_slab k₂ slab (new_slab (k₂.slabs slab) count map)))
      ]
]

unfoldable pub kmalloc_create : (ℕ → Heap → Option (ℕ × Heap)) → ℕ → Heap → Option (ℕ × Heap)
kmalloc_create alloc size k = elim (alloc_pages 2 1 0 k.mms) [
  | none ↦ none
  | some (page, m) ↦
      let k₁ = record k { mms = page_init m page 8 } in
      if is_small size
      then some (create_small size page k₁)
      else (if is_large size then create_large alloc size page k₁ else none)
]

-- A new slab for cache i.
unfoldable pub grow : (ℕ → Heap → Option (ℕ × Heap)) → ℕ → Heap → Option (ℕ × Heap)
grow alloc i k = elim (kmalloc_create alloc (k.caches i).size k) [
  | none ↦ none
  | some (slab, k₁) ↦
      let c = k₁.caches i in
      let k₂ =
        set_cache k₁ i (record c { total_free = plus c.total_free (k₁.slabs slab).color_count }) in
      some (slab, record k₂ { links = list_add_to_before k₂.links c.cache_pool slab })
]

abbrev pub and_take : ℕ → Option (ℕ × Heap) → Option (ℕ × Heap)
and_take i none = none
and_take i (some (slab, k)) = take_from_slab i slab k

abbrev pub with_heap : Heap → Option ℕ → Option (ℕ × Heap)
with_heap k none = none
with_heap k (some slab) = some (slab, k)

-- `depth` is one more than the number of slabs that may be made for the slab of another: kmalloc
-- calls itself only through kmalloc_create. `fuel` is for the walk.
unfoldable pub kmalloc : ℕ → ℕ → ℕ → Heap → Option (ℕ × Heap)
kmalloc zero fuel size k = none
kmalloc (suc depth) fuel size k =
    let i = find_cache k.caches size 16 0 in
    let pool = (k.caches i).cache_pool in
    let grown = grow (kmalloc depth fuel) i k in
    if ltb 1048576 size
    then none
    else and_take i
        (if (k.caches i).total_free == 0 then grown else with_heap k (find_slab fuel pool pool k))
