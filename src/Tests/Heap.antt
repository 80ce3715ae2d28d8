-- ===== src/Tests/Heap.antt =====
-- The theorems on kmalloc and kfree: the 32 byte cache has a full pool and a slab with one free
-- block of two, the 64 byte cache a full pool alone.
use mathlib.Core.List.{Memᴰ}
use mine_os.Prelude.{
  ℕ, ◌+◌, ◌-◌, ◌*◌, subst, ◌^◌, ◌≡◌, ◌≢◌, sym, refl, arith, if◌then◌else◌, ◌==◌, [], ◌∷◌, some, inl,
  inr,
}
use mine_os.Memory.{Mms, Bytes, alloc_pages, page_init}
use mine_os.Memory.Alloc.{marked_from}
use mine_os.Memory.Slab.{Slab, Heap, kmalloc, find_cache}
use mine_os.Memory.Slab.Free.{kfree}
use mine_os.Memory.Slab.Invariant.{IsCache, IsSlab}
use mine_os.Memory.Slab.Kmalloc.{Taken, kmalloc_lem}
use mine_os.Memory.Slab.RoundTrip.{IsKept, Spread, kfree-kmalloc}
use mine_os.Memory.Slab.Restore.{Placed}
use mine_os.Memory.Slab.Create.{heap_made, slab_at, kmalloc_grown}
use mine_os.Tests.Pages.{memory}

abbrev two_blocks : ℕ → ℕ → ℕ → ℕ → Slab
two_blocks page free map v = record {
  page = page;
  using_count = 2 - free;
  free_count = free;
  vaddress = v;
  color_length = 4;
  color_count = 2;
  color_map = map;
}

abbrev pub heap : Heap
heap = record {
  mms = memory;
  links = record {
    prev = λ q. if q == 5 then 6 else (if q == 6 then 5 else q);
    next = λ q. if q == 5 then 6 else (if q == 6 then 5 else q);
  };
  slabs = λ q.
      if q == 6 then two_blocks 6 1 200 (6 * 2 ^ 21) else two_blocks q 0 (100 + q) (q * 2 ^ 21);
  maps = λ a i. if a == 200 then 0xfd else 0xff;
  caches = λ i.
      if i == 0
      then record { size = 32; total_using = 3; total_free = 1; cache_pool = 5 }
      else record { size = 64; total_using = 2; total_free = 0; cache_pool = 7 };
}

two {ℓ} : (P : ℕ → Type ℓ) → P 5 → P 6 → (s : ℕ) → Memᴰ s (5 ∷ 6 ∷ []) → P s
two P p q s (Memᴰ.head e) = subst P (sym e) p
two P p q s (Memᴰ.tail (Memᴰ.head e)) = subst P (sym e) q
two P p q s (Memᴰ.tail (Memᴰ.tail m)) = elim m [ ]

heap-IsCache : IsCache heap 0 (6 ∷ [])
heap-IsCache = record {
  ring = record {
    linked = (refl, refl, (refl, refl));
    distinct = (((λ e. omega (arith, e)), tt), (tt, tt));
  };
  non_null = ((λ e. omega (arith, e)), ((λ e. omega (arith, e)), tt));
  slab =
      two (IsSlab heap) (record { bytes = λ i. omega arith; free = refl; all = refl })
        (record { bytes = λ i. omega arith; free = refl; all = refl });
  own_map = λ s t a b.
      two (λ x. x ≢ t → (heap.slabs x).color_map ≢ (heap.slabs t).color_map)
        (two (λ y. 5 ≢ y → 105 ≢ (heap.slabs y).color_map) (λ n e. n refl) (λ n e. omega (arith, e))
          t b)
        (two (λ y. 6 ≢ y → 200 ≢ (heap.slabs y).color_map) (λ n e. omega (arith, e)) (λ n e. n refl)
          t b)
        s a;
  free = refl;
  using = refl;
  bound = omega arith;
}

heap-Spread : Spread heap (6 ∷ [])
heap-Spread = record {
  placed =
      two (Placed heap)
        (record {
          aligned = omega arith;
          top = omega arith;
          size = omega arith;
          room = omega arith;
        })
        (record {
          aligned = omega arith;
          top = omega arith;
          size = omega arith;
          room = omega arith;
        });
  apart = λ s t a b.
      two (λ x. x ≢ t → (heap.slabs t).vaddress ≢ (heap.slabs x).vaddress)
        (two (λ y. 5 ≢ y → (heap.slabs y).vaddress ≢ 5 * 2 ^ 21) (λ n e. n refl)
          (λ n e. omega (arith, e)) t b)
        (two (λ y. 6 ≢ y → (heap.slabs y).vaddress ≢ 6 * 2 ^ 21) (λ n e. omega (arith, e))
          (λ n e. n refl) t b)
        s a;
  in_use = two (IsKept heap) (inl refl) (inr (inl (λ e. omega (arith, e))));
}

kmalloc_example : Taken heap 0 (6 ∷ []) (kmalloc 1 2 20 heap)
unfolding find_cache
kmalloc_example =
    kmalloc_lem 0 2 20 heap (6 ∷ []) (omega arith) heap-IsCache (λ e. omega (arith, e))
      (omega arith)

kfree-kmalloc_example :
    (address : ℕ) × (k' : Heap) × (kmalloc 1 2 20 heap ≡ some (address, k'))
    × (kfree 1 2 address k' ≡ some heap)
kfree-kmalloc_example =
    kfree-kmalloc 0 2 20 heap (6 ∷ []) (omega arith) (omega arith) heap-IsCache heap-Spread
      (λ e. omega (arith, e)) (omega arith)

page_for_slab : alloc_pages 2 1 0 memory ≡ some (387, marked_from 1 1 0 387 memory)
unfolding alloc_pages mine_os.Memory.select_zones mine_os.Memory.alloc_in_zones
    mine_os.Memory.alloc_in_zone mine_os.Memory.find_window mine_os.Memory.is_window_free
    mine_os.Memory.long_at
page_for_slab = refl

-- The memory after the page of the new slab is taken, and where its struct stands.
abbrev slab_memory : Mms
slab_memory = page_init (marked_from 1 1 0 387 memory) 387 8

abbrev slab_address : ℕ
slab_address = slab_at 64 387 slab_memory

full-IsCache : IsCache heap 1 []
full-IsCache = record {
  ring = record { linked = (refl, refl); distinct = (tt, tt) };
  non_null = ((λ e. omega (arith, e)), tt);
  slab = one (IsSlab heap) (record { bytes = λ i. omega arith; free = refl; all = refl });
  own_map = λ s t a b n. absurd (n (one (λ x. x ≡ t) (one (λ y. 7 ≡ y) refl t b) s a));
  free = refl;
  using = refl;
  bound = omega arith;
}
  where
    one : (P : ℕ → Type 0) → P 7 → (s : ℕ) → Memᴰ s (7 ∷ []) → P s
    one P p s (Memᴰ.head e) = subst P (sym e) p
    one P p s (Memᴰ.tail m) = elim m [ ]

kmalloc_grown_example :
    Taken (heap_made 1 387 slab_memory heap) 1 (slab_address ∷ []) (kmalloc 2 1 50 heap)
unfolding find_cache page_init mine_os.Memory.mark_pages
kmalloc_grown_example =
    kmalloc_grown 1 1 50 387 (marked_from 1 1 0 387 memory) heap [] (omega arith) refl page_for_slab
      full-IsCache refl (omega arith) (λ i. omega arith)
      (record {
        slab = ((λ e. omega (arith, e)), tt);
        non_null = λ e. omega (arith, e);
        map = λ t a e. differs t a e;
      })
  where
    differs : (t : ℕ) → Memᴰ t (7 ∷ []) → slab_address + 36 ≢ (heap.slabs t).color_map
    differs t (Memᴰ.head e) =
        subst (λ x. slab_address + 36 ≢ (heap.slabs x).color_map) (sym e) (λ c. omega (arith, c))
    differs t (Memᴰ.tail m) = elim m [ ]
