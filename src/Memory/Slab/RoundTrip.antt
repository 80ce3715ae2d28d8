-- ===== src/Memory/Slab/RoundTrip.antt =====
-- mm/memory.c: kfree undoes what kmalloc did to the 32 byte cache.
use mathlib.Core.List.{Memᴰ}
use mine_os.Prelude.{
  ℕ, suc, ◌*◌, ◌/◌, ◌%◌, ◌^◌, ◌<◌, ◌≤◌, ◌==◌, ◌≡◌, ◌≢◌, ◌∙◌, refl, sym, false, arith, Bool-cases,
  inl, inr, List, ◌∷◌, ◌⊎◌, length, some, ==_iff, le→leb, subst,
}
use mine_os.Memory.Bitmap.{bit_at}
use mine_os.Memory.Slab.{Cache, Heap, take_color, kmalloc, find_cache}
use mine_os.Memory.Slab.Free.{is_released, free_in, kfree}
use mine_os.Memory.Slab.Kfree.{slab_of_lem, first_at_lem}
use mine_os.Memory.Slab.Invariant.{IsCache}
use mine_os.Memory.Slab.Blocks.{take_color-IsCache}
use mine_os.Memory.Slab.Kmalloc.{Taken, kmalloc_lem}
use mine_os.Memory.Slab.Restore.{Placed, put_color-take_color, base_of, inside}

same_vaddress :
    (k : Heap) (s j t : ℕ) → ((take_color 0 s j k).1.slabs t).vaddress ≡ (k.slabs t).vaddress
unfolding take_color
same_vaddress k s j t = elim (Bool-cases (s == t)) [
  | inl e ↦ rw (e, (==_iff s t).0 e) refl
  | inr e ↦ rw e refl
]

-- The slab is the pool, or has a block in use, or the free blocks of the cache are fewer than one and
-- a half times those of the slab.
abbrev pub IsKept : Heap → ℕ → Type 0
IsKept k s =
    ((k.caches 0).cache_pool ≡ s)
    ⊎ ((k.slabs s).using_count ≢ 0)
    ⊎ ((k.caches 0).total_free < (k.slabs s).color_count * 3 % 2 ^ 32 / 2)

-- The slabs of the 32 byte cache stand in their own, different 2 MB, and kfree has no reason to
-- release one: it is the pool, or has a block in use, or the cache has few free blocks.
pub record Spread (k : Heap) (ss : List ℕ) : Type 0 where
  pub placed : (s : ℕ) → Memᴰ s ((k.caches 0).cache_pool ∷ ss) → Placed k s
  pub apart :
      (s t : ℕ)
      → Memᴰ s ((k.caches 0).cache_pool ∷ ss)
      → Memᴰ t ((k.caches 0).cache_pool ∷ ss)
      → s ≢ t
      → (k.slabs t).vaddress ≢ (k.slabs s).vaddress
  pub in_use : (s : ℕ) → Memᴰ s ((k.caches 0).cache_pool ∷ ss) → IsKept k s

not_released : (k : Heap) (s : ℕ) → IsKept k s → is_released 0 s k ≡ false
not_released k s o = ground (arith, o)

kfree-take_color :
    (depth fuel s j : ℕ) (k : Heap) (ss : List ℕ)
    → IsCache k 0 ss
    → Spread k ss
    → Memᴰ s ((k.caches 0).cache_pool ∷ ss)
    → j < (k.slabs s).color_count
    → bit_at (k.maps (k.slabs s).color_map) j ≡ false
    → length ss < fuel
    → kfree (suc depth) fuel (take_color 0 s j k).0 (take_color 0 s j k).1 ≡ some k
unfolding kfree free_in take_color
kfree-take_color depth fuel s j k ss h d a l f n =
    let r = take_color-IsCache k 0 s j ss h a l f in
    let p = d.placed s a in
    let base =
      base_of (k.slabs s).vaddress ((k.caches 0).size * j) p.aligned (inside k s j p l) p.top in
    rw
      (
        kfree,
        free_in,
        base,
        slab_of_lem fuel (k.caches 0).cache_pool (k.slabs s).vaddress ss (take_color 0 s j k).1
            r.ring r.non_null n,
        first_at_lem (take_color 0 s j k).1.slabs (k.slabs s).vaddress (k.caches 0).cache_pool s _ a
            (same_vaddress k s j s)
            (λ t b ne e. d.apart s t a b ne (sym (same_vaddress k s j t) ∙ e)),
        put_color-take_color s j k ss h a l f p,
        not_released k s (d.in_use s a),
      )
      refl

find_cache_first :
    (caches : ℕ → Cache) (size : ℕ) → size ≤ (caches 0).size → find_cache caches size 16 0 ≡ 0
unfolding find_cache
find_cache_first caches size h = rw (le→leb size (caches 0).size h) refl

-- Where the 32 byte cache is consistent and has a free block, its slabs stand in their own, different
-- 2 MB, and each slab besides the pool has a block in use before, or the cache has fewer free blocks
-- than one and a half slabs, kmalloc of at most its size returns an address, and kfree of that
-- address then gives back the heap as it was.
pub kfree-kmalloc :
    (depth fuel size : ℕ) (k : Heap) (ss : List ℕ)
    → size ≤ (k.caches 0).size
    → size ≤ 1048576
    → IsCache k 0 ss
    → Spread k ss
    → (k.caches 0).total_free ≢ 0
    → length ss < fuel
    → (address : ℕ) × (k' : Heap) × (kmalloc (suc depth) fuel size k ≡ some (address, k'))
      × (kfree (suc depth) fuel address k' ≡ some k)
kfree-kmalloc depth fuel size k ss le small h d n f =
    let first = find_cache_first k.caches size le in
    let t =
      subst (λ i. Taken k i ss (kmalloc (suc depth) fuel size k)) first
        (kmalloc_lem depth fuel size k ss small (subst (λ i. IsCache k i ss) (sym first) h)
          (subst (λ i. (k.caches i).total_free ≢ 0) (sym first) n) f) in
    (
      (take_color 0 t.slab t.color k).0,
      (take_color 0 t.slab t.color k).1,
      t.result,
      kfree-take_color depth fuel t.slab t.color k ss h d t.member t.below t.was_free f,
    )
