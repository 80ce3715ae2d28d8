-- ===== src/Memory/Slab/Create.antt =====
-- mm/memory.c: kmalloc_create for the small sizes, and kmalloc where the cache has no free block.
use mathlib.Core.List.{Memᴰ}
use mine_os.Prelude.{
  ℕ, suc, ◌+◌, ◌-◌, ◌^◌, ◌<◌, ◌≤◌, ◌≡◌, ◌∙◌, refl, sym, ap, true, arith, List, [], ◌∷◌, ◌++◌,
  Option, some, ==_iff, le→ltb_false,
}
use mine_os.Links.{update, list_init, list_add_to_before}
use mine_os.Links.Splice.{update_self, update_ne}
use mine_os.Memory.{Mms, Bytes, plus, page_init, alloc_pages}
use mine_os.Memory.Bitmap.{IsBytes}
use mine_os.Memory.Slab.{
  Slab, Heap, page_2m_size, sizeof_slab, map_length, set_slab, set_map, set_cache, clear_colors,
  filled_map, finish_slab, new_slab, create_small, kmalloc_create, grow, is_small, kmalloc,
  find_cache,
}
use mine_os.Memory.Slab.Invariant.{IsCache}
use mine_os.Memory.Slab.Fresh.{
  fresh-IsBytes, free_blocks_fresh, structsize, small_count, create_small_layout,
}
use mine_os.Memory.Slab.Grow.{Grown, Unknown, Grown-IsCache, Memᴰ_last}
use mine_os.Memory.Slab.Kmalloc.{Taken, take_from_slab-Taken}

-- Where the struct Slab stands in the page.
abbrev pub slab_at : ℕ → ℕ → Mms → ℕ
slab_at size page m = (m.pages page).phy_address + page_2m_size - structsize size

-- The struct as it is in the end.
abbrev slab_made : ℕ → ℕ → Mms → Slab → Slab
slab_made size page m old =
    record (new_slab old (small_count size) (slab_at size page m + sizeof_slab)) {
      vaddress = (m.pages page).phy_address;
      page = page;
    }

abbrev map_made : ℕ → Bytes → Bytes
map_made count m = clear_colors count 0 (filled_map (map_length count) m)

-- The heap after a slab for cache i is made in the page.
abbrev pub heap_made : ℕ → ℕ → Mms → Heap → Heap
heap_made i page m k =
    let size = (k.caches i).size in
    let s = slab_at size page m in
    let c = k.caches i in
    record {
      mms = m;
      links = list_add_to_before (list_init k.links s) c.cache_pool s;
      slabs =
          update (update k.slabs s (new_slab (k.slabs s) (small_count size) (s + sizeof_slab))) s
            (slab_made size page m (k.slabs s));
      maps =
          update k.maps (s + sizeof_slab) (map_made (small_count size) (k.maps (s + sizeof_slab)));
      caches = update k.caches i (record c { total_free = plus c.total_free (small_count size) });
    }

-- The rest of grow, by what it reads of the slab.
after : ℕ → ℕ → ℕ → Heap → Slab → ℕ × Heap
after i page slab k s₀ =
    let s = record s₀ { vaddress = (k.mms.pages page).phy_address; page = page } in
    let m = clear_colors s.color_count 0 (filled_map s.color_length (k.maps s.color_map)) in
    let c = k.caches i in
    let k₁ = record (set_map (set_slab k slab s) s.color_map m) {
      links = list_init k.links slab;
    } in
    let k₂ =
      set_cache k₁ i (record c { total_free = plus c.total_free (k₁.slabs slab).color_count }) in
    (slab, record k₂ { links = list_add_to_before k₂.links c.cache_pool slab })

grow_small :
    (alloc : ℕ → Heap → Option (ℕ × Heap)) (i page : ℕ) (m : Mms) (k : Heap)
    → is_small (k.caches i).size ≡ true
    → alloc_pages 2 1 0 k.mms ≡ some (page, m)
    → grow alloc i k
      ≡ some (
        slab_at (k.caches i).size page (page_init m page 8),
        heap_made i page (page_init m page 8) k,
      )
unfolding grow kmalloc_create create_small finish_slab after
grow_small alloc i page m k small e =
    let m' = page_init m page 8 in
    let size = (k.caches i).size in
    let s = slab_at size page m' in
    let x = new_slab (k.slabs s) (small_count size) (s + sizeof_slab) in
    let k₁ : Heap = set_slab (record k { mms = m' }) s x in
    rw (grow, kmalloc_create, e, small)
      (ap (λ y. some (after i page s k₁ y)) (update_self k.slabs s x)
        ∙ ap
            (λ (y : Slab). some (
              s,
              record (heap_made i page m' k) {
                caches = update k.caches i (record (k.caches i) {
                  total_free = plus (k.caches i).total_free y.color_count;
                });
              },
            ))
            (update_self (update k.slabs s x) s (slab_made size page m' (k.slabs s))))

heap_made-Grown :
    (i page : ℕ) (m : Mms) (k : Heap) (ss : List ℕ)
    → is_small (k.caches i).size ≡ true
    → IsCache k i ss
    → (k.caches i).total_free ≡ 0
    → (k.caches i).total_using < 2 ^ 31
    → IsBytes (k.maps (slab_at (k.caches i).size page m + sizeof_slab))
    → Grown k (heap_made i page m k) i (slab_at (k.caches i).size page m)
heap_made-Grown i page m k ss small h none_free few b =
    let size = (k.caches i).size in
    let s = slab_at size page m in
    let c = k.caches i in
    let count = small_count size in
    let v = slab_made size page m (k.slabs s) in
    let f = update k.slabs s (new_slab (k.slabs s) count (s + sizeof_slab)) in
    let at = update_self f s v in
    let fit = create_small_layout size small in
    let cache = update_self k.caches i (record c { total_free = plus c.total_free count }) in
    record {
      old_slab = λ t n. update_ne f s v t n ∙ update_ne k.slabs s _ t n;
      old_map = λ a. rw at (λ n. update_ne k.maps (s + sizeof_slab) _ a n);
      new = record {
        bytes =
            rw
              (at, update_self k.maps (s + sizeof_slab) (map_made count (k.maps (s + sizeof_slab))))
              (fresh-IsBytes count (k.maps (s + sizeof_slab)) b);
        free =
            rw
              (at, update_self k.maps (s + sizeof_slab) (map_made count (k.maps (s + sizeof_slab))))
              (sym (free_blocks_fresh count (k.maps (s + sizeof_slab))));
        all = rw at (omega arith);
      };
      links = refl;
      pool = rw cache refl;
      unused = rw at refl;
      total_free = rw (cache, at) (omega (arith, none_free, fit.3));
      total_using = rw cache refl;
      bound = rw cache (omega (arith, none_free, few, fit.3));
    }

-- Where the first cache that is large enough is one of the small ones, has no free block, and a
-- page is free, kmalloc returns: a slab is made in that page, whose struct and map are not in the
-- cache yet, and the first free block of it is taken; the invariant holds of the longer list.
pub kmalloc_grown :
    (depth fuel size page : ℕ) (m : Mms) (k : Heap) (ss : List ℕ)
    → let i = find_cache k.caches size 16 0 in
      let s = slab_at (k.caches i).size page (page_init m page 8) in
      size ≤ 1048576
      → is_small (k.caches i).size ≡ true
      → alloc_pages 2 1 0 k.mms ≡ some (page, m)
      → IsCache k i ss
      → (k.caches i).total_free ≡ 0
      → (k.caches i).total_using < 2 ^ 31
      → IsBytes (k.maps (s + sizeof_slab))
      → Unknown k i s (s + sizeof_slab) ss
      → Taken
          (heap_made i page (page_init m page 8) k)
          i
          (ss ++ s ∷ [])
          (kmalloc (suc depth) fuel size k)
unfolding kmalloc
kmalloc_grown depth fuel size page m k ss le small e h none_free few b u =
    let i = find_cache k.caches size 16 0 in
    let m' = page_init m page 8 in
    let s = slab_at (k.caches i).size page m' in
    let k' = heap_made i page m' k in
    let g = heap_made-Grown i page m' k ss small h none_free few b in
    let made =
      update_self
        (update k.slabs s (new_slab (k.slabs s) (small_count (k.caches i).size) (s + sizeof_slab)))
        s (slab_made (k.caches i).size page m' (k.slabs s)) in
    let fit = create_small_layout (k.caches i).size small in
    let r = Grown-IsCache k k' i s ss h (rw made u) g in
    rw
      (
        le→ltb_false 1048576 size le,
        (==_iff (k.caches i).total_free 0).1 none_free,
        grow_small (kmalloc depth fuel) i page m k small e,
      )
      (take_from_slab-Taken k' i s (ss ++ s ∷ []) r (Memᴰ.tail (Memᴰ_last s ss))
        (rw made (λ z. omega (arith, z, fit.2))))
