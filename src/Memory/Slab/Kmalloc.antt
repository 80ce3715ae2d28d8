-- ===== src/Memory/Slab/Kmalloc.antt =====
-- mm/memory.c: kmalloc where the cache has a free block.
use mathlib.Core.List.{Memᴰ}
use mine_os.Prelude.{
  ℕ, zero, suc, ◌<◌, ◌≤◌, ◌==◌, ◌≡◌, ◌≢◌, ◌∙◌, refl, sym, true, false, arith, Bool-cases,
  Option-cases, inl, inr, List, [], ◌∷◌, length, Option, none, some, ==_false, le→ltb_false, subst,
}
use mine_os.Memory.{Bytes}
use mine_os.Memory.Bitmap.{bit_at}
use mine_os.Memory.Slab.{Slab, Heap, find_cache, find_color, take_color, take_from_slab, kmalloc}
use mine_os.Memory.Slab.Take.{FirstFree, find_color_lem, find_slab_lem, first_free}
use mine_os.Memory.Slab.Invariant.{IsCache, free_blocks, total}
use mine_os.Memory.Slab.Blocks.{take_color-IsCache}

-- The slab that is found is one of the list and has a free block; one is found where the list has
-- a free block at all.
first_free_lem :
    (slabs : ℕ → Slab) (ss : List ℕ)
    → total (λ s. s.free_count) slabs ss ≢ 0
    → (s : ℕ) × (first_free slabs ss ≡ some s) × Memᴰ s ss × ((slabs s).free_count ≢ 0)
first_free_lem slabs [] n = absurd (n refl)
first_free_lem slabs (s ∷ ss) n = elim (Bool-cases ((slabs s).free_count == 0)) [
  | inl e ↦
      let (t, f, m, h) = first_free_lem slabs ss (λ z. n (ground arith)) in
      (t, rw e f, Memᴰ.tail m, h)
  | inr e ↦ (s, rw e refl, Memᴰ.head refl, λ z. absurd (ground arith))
]

free_blocks_full : (m : Bytes) (n : ℕ) → ((q : ℕ) → q < n → bit_at m q ≡ true) → free_blocks m n ≡ 0
free_blocks_full m zero h = refl
free_blocks_full m (suc n) h =
    rw (h n (omega arith)) (omega (arith, free_blocks_full m n (λ q l. h q (omega arith))))

-- The outcome of kmalloc from cache i: the first free block of a slab of the cache is taken, and
-- the invariant still holds.
pub record Taken (k : Heap) (i : ℕ) (ss : List ℕ) (r : Option (ℕ × Heap)) : Type 0 where
  pub slab : ℕ
  pub color : ℕ
  pub member : Memᴰ slab ((k.caches i).cache_pool ∷ ss)
  pub below : color < (k.slabs slab).color_count
  pub was_free : bit_at (k.maps (k.slabs slab).color_map) color ≡ false
  pub first : (q : ℕ) → q < color → bit_at (k.maps (k.slabs slab).color_map) q ≡ true
  pub result : r ≡ some (take_color i slab color k)
  pub kept : IsCache (take_color i slab color k).1 i ss

pub take_from_slab-Taken :
    (k : Heap) (i s : ℕ) (ss : List ℕ)
    → IsCache k i ss
    → Memᴰ s ((k.caches i).cache_pool ∷ ss)
    → (k.slabs s).free_count ≢ 0
    → Taken k i ss (take_from_slab i s k)
unfolding take_from_slab
take_from_slab-Taken k i s ss h a n =
    let m = k.maps (k.slabs s).color_map in
    let c = (k.slabs s).color_count in
    let found = find_color_lem m c c 0 (h.slab s a).bytes (omega arith) in
    elim (Option-cases (find_color m c c 0)) [
      | inl e ↦
          let full : FirstFree m c 0 none = subst (FirstFree m c 0) e found in
          absurd (n ((h.slab s a).free ∙ free_blocks_full m c (λ q l. full q (omega arith) l)))
      | inr (j, e) ↦
          let one : FirstFree m c 0 (some j) = subst (FirstFree m c 0) e found in
          record {
            slab = s;
            color = j;
            member = a;
            below = one.1;
            was_free = one.2;
            first = λ q l. one.3 q (omega arith) l;
            result = rw (take_from_slab, e) refl;
            kept = take_color-IsCache k i s j ss h a one.1 one.2;
          }
    ]

-- Where the first cache that is large enough has a free block, kmalloc returns: it takes the first
-- free block of a slab of that cache, which was free, and keeps the cache's invariant.
pub kmalloc_lem :
    (depth fuel size : ℕ) (k : Heap) (ss : List ℕ)
    → size ≤ 1048576
    → IsCache k (find_cache k.caches size 16 0) ss
    → (k.caches (find_cache k.caches size 16 0)).total_free ≢ 0
    → length ss < fuel
    → Taken k (find_cache k.caches size 16 0) ss (kmalloc (suc depth) fuel size k)
unfolding kmalloc
kmalloc_lem depth fuel size k ss small h n f =
    let i = find_cache k.caches size 16 0 in
    let (s, e, a, free) =
      first_free_lem k.slabs ((k.caches i).cache_pool ∷ ss) (λ z. n (sym h.free ∙ z)) in
    rw
      (
        le→ltb_false 1048576 size small,
        ==_false (k.caches i).total_free 0 n,
        find_slab_lem fuel (k.caches i).cache_pool ss k h.ring h.non_null f,
        e,
      )
      (take_from_slab-Taken k i s ss h a free)
