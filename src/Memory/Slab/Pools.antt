-- ===== src/Memory/Slab/Pools.antt =====
-- mm/memory.c: that slab_init sets up the caches.
use native.Mathlib.Nat.{div-mul-le_self, mul-le-mul_left}
use mathlib.Core.List.{Memᴰ}
use mine_os.Prelude.{
  ℕ, ◌+◌, ◌*◌, ◌/◌, ◌^◌, ◌<◌, ◌≤◌, ◌≡◌, ◌≢◌, ◌∙◌, refl, sym, subst, arith, [], ◌∷◌, ==_refl,
}
use mine_os.Links.{list_init}
use mine_os.Links.Splice.{update_self}
use mine_os.Memory.{plus}
use mine_os.Memory.Bitmap.{IsBytes}
use mine_os.Memory.Slab.{Heap, page_2m_size, map_length, clear_colors, filled_map}
use mine_os.Memory.Slab.Invariant.{IsCache, IsSlab}
use mine_os.Memory.Slab.Fresh.{fresh-IsBytes, free_blocks_fresh}
use mine_os.Memory.Slab.Init.{pool_slab, init_pool}

-- A cache that is its pool alone.
pub record Lone (k : Heap) (i p : ℕ) : Type 0 where
  pub pool : (k.caches i).cache_pool ≡ p
  pub next : k.links.next p ≡ p
  pub prev : k.links.prev p ≡ p
  pub slab : IsSlab k p
  pub free : (k.slabs p).free_count ≡ (k.caches i).total_free
  pub using : (k.slabs p).using_count ≡ (k.caches i).total_using
  pub bound : (k.caches i).total_free + (k.caches i).total_using < 2 ^ 32

only : (p : ℕ) (P : ℕ → Type 0) → P p → (s : ℕ) → Memᴰ s (p ∷ []) → P s
only p P x s (Memᴰ.head e) = subst P (sym e) x
only p P x s (Memᴰ.tail m) = elim m [ ]

pub Lone-IsCache : (k : Heap) (i p : ℕ) → Lone k i p → p ≢ 0 → IsCache k i []
Lone-IsCache k i p l n = record {
  ring = rw l.pool (record { linked = (l.next, l.prev); distinct = (tt, tt) });
  non_null = rw l.pool (n, tt);
  slab = rw l.pool (only p (IsSlab k) l.slab);
  own_map =
      rw l.pool (λ s t a b d. absurd (d (only p (λ x. x ≡ t) (only p (λ y. p ≡ y) refl t b) s a)));
  free = rw l.pool (omega (arith, l.free));
  using = rw l.pool (omega (arith, l.using));
  bound = l.bound;
}

-- A change that is not of cache i, its pool's node, counters and map.
pub record Keeps (k k' : Heap) (i p : ℕ) : Type 0 where
  pub cache : k'.caches i ≡ k.caches i
  pub next : k'.links.next p ≡ k.links.next p
  pub prev : k'.links.prev p ≡ k.links.prev p
  pub using : (k'.slabs p).using_count ≡ (k.slabs p).using_count
  pub free : (k'.slabs p).free_count ≡ (k.slabs p).free_count
  pub count : (k'.slabs p).color_count ≡ (k.slabs p).color_count
  pub color_map : (k'.slabs p).color_map ≡ (k.slabs p).color_map
  pub map : k'.maps (k.slabs p).color_map ≡ k.maps (k.slabs p).color_map

pub Keeps-Lone : (k k' : Heap) (i p : ℕ) → Keeps k k' i p → Lone k i p → Lone k' i p
Keeps-Lone k k' i p h l = record {
  pool = rw h.cache l.pool;
  next = h.next ∙ l.next;
  prev = h.prev ∙ l.prev;
  slab = record {
    bytes = rw (h.color_map, h.map) l.slab.bytes;
    free = rw (h.color_map, h.map, h.free, h.count) l.slab.free;
    all = rw (h.using, h.free, h.count) l.slab.all;
  };
  free = rw (h.free, h.cache) l.free;
  using = rw (h.using, h.cache) l.using;
  bound = rw h.cache l.bound;
}

-- A cache that is set up below an address, with all of its blocks free.
pub record Below (k : Heap) (i end p : ℕ) : Type 0 where
  pub lone : Lone k i p
  pub pool : p < end
  pub map : (k.slabs p).color_map < end
  pub all_free : (k.caches i).total_free ≡ page_2m_size / (k.caches i).size

abbrev pub count_of : Heap → ℕ → ℕ
count_of k i = page_2m_size / (k.caches i).size

pub few_blocks : (k : Heap) (i : ℕ) → 32 ≤ (k.caches i).size → count_of k i ≤ 2 ^ 16
few_blocks k i h =
    let a = div-mul-le_self page_2m_size (k.caches i).size in
    let b : count_of k i * 32 ≤ count_of k i * (k.caches i).size =
      mul-le-mul_left (count_of k i) h in
    omega (arith, a, b)

-- The address after the map of the pool of cache i.
abbrev pub after_pool : Heap → ℕ → ℕ → ℕ
after_pool k i end = (init_pool i (end, k)).0

pub after_pool_bound :
    (k : Heap) (i end : ℕ)
    → 32 ≤ (k.caches i).size
    → end + 10000 < 2 ^ 32
    → (end + 76 < after_pool k i end)
      × (after_pool k i end ≤ end + 10000)
      × (plus end 76 ≡ end + 76)
unfolding init_pool
after_pool_bound k i end h b =
    let f = few_blocks k i h in (omega (arith, f, b), omega (arith, f, b), omega (arith, b))

pub init_pool-Below :
    (k : Heap) (i end : ℕ)
    → 32 ≤ (k.caches i).size
    → end + 10000 < 2 ^ 32
    → ((a : ℕ) → IsBytes (k.maps a))
    → Below (init_pool i (end, k)).1 i (after_pool k i end) end
unfolding init_pool list_init
init_pool-Below k i end h b bytes =
    let c = k.caches i in
    let map = plus end 76 in
    let n = count_of k i in
    let s = pool_slab (k.slabs end) c.size map in
    let at = update_self k.slabs end s in
    let cache =
      update_self k.caches i (record c { cache_pool = end; total_free = n; total_using = 0 }) in
    let m = clear_colors n 0 (filled_map (map_length n) (k.maps map)) in
    let here = update_self k.maps map m in
    let r = after_pool_bound k i end h b in
    let f = few_blocks k i h in
    record {
      lone = record {
        pool = rw cache refl;
        next = rw (==_refl end) refl;
        prev = rw (==_refl end) refl;
        slab = record {
          bytes = rw (at, here) (fresh-IsBytes n (k.maps map) (bytes map));
          free = rw (at, here) (sym (free_blocks_fresh n (k.maps map)));
          all = rw at (omega arith);
        };
        free = rw (at, cache) refl;
        using = rw (at, cache) refl;
        bound = rw cache (omega (arith, f));
      };
      pool = omega (arith, r.0);
      map = rw at (omega (arith, r.0, r.2));
      all_free = rw cache refl;
    }
