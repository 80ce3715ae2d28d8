-- ===== src/Memory/Slab/Ready.antt =====
-- mm/memory.c: the caches after slab_init.
use mine_os.Prelude.{
  ℕ, zero, suc, ◌+◌, ◌-◌, ◌*◌, ◌/◌, ◌^◌, ◌<◌, ◌≤◌, ◌==◌, ◌≡◌, ◌≢◌, ◌∙◌, refl, ap, subst, arith,
  Bool-cases, inl, inr, [], ==_false, ==_iff,
}
use mine_os.Links.{update, list_init}
use mine_os.Links.Splice.{update_ne}
use mine_os.Memory.{plus, page_2m_num}
use mine_os.Memory.Bitmap.{IsBytes}
use mine_os.Memory.Slab.{Slab, Heap, page_2m_size}
use mine_os.Memory.Slab.Invariant.{IsCache}
use mine_os.Memory.Slab.Fresh.{fresh-IsBytes}
use mine_os.Memory.Slab.Init.{
  pool_slab, init_pool, init_pools, place_pool, place_pools, slab_init, use_pages, page_2m_align,
}
use mine_os.Memory.Slab.Pools.{
  Lone, Keeps, Below, Lone-IsCache, Keeps-Lone, after_pool, after_pool_bound, init_pool-Below,
  count_of,
}

init_pool_keeps :
    (k : Heap) (i j end p : ℕ)
    → i ≢ j
    → 32 ≤ (k.caches i).size
    → end + 10000 < 2 ^ 32
    → Below k j end p
    → Below (init_pool i (end, k)).1 j (after_pool k i end) p
unfolding init_pool list_init
init_pool_keeps k i j end p d h b l =
    let r = after_pool_bound k i end h b in
    let off : end ≢ p = λ e. omega (arith, e, l.pool) in
    let away : plus end 76 ≢ (k.slabs p).color_map = λ e. omega (arith, e, r.2, l.map) in
    let same =
      update_ne k.slabs end (pool_slab (k.slabs end) (k.caches i).size (plus end 76)) p off in
    let cache = ==_false i j d in
    let kept : Keeps k (init_pool i (end, k)).1 j p = record {
      cache = rw cache refl;
      next = rw (==_false end p off) refl;
      prev = rw (==_false end p off) refl;
      using = rw same refl;
      free = rw same refl;
      count = rw same refl;
      color_map = rw same refl;
      map = rw (==_false (plus end 76) (k.slabs p).color_map away) refl;
    } in
    record {
      lone = Keeps-Lone k (init_pool i (end, k)).1 j p kept l.lone;
      pool = omega (arith, l.pool, r.0);
      map = rw same (omega (arith, l.map, r.0));
      all_free = rw cache l.all_free;
    }

init_pool-IsBytes :
    (k : Heap) (i end : ℕ)
    → ((a : ℕ) → IsBytes (k.maps a))
    → (a : ℕ) → IsBytes ((init_pool i (end, k)).1.maps a)
unfolding init_pool
init_pool-IsBytes k i end b a = elim (Bool-cases (plus end 76 == a)) [
  | inl e ↦ rw e (fresh-IsBytes (count_of k i) (k.maps (plus end 76)) (b (plus end 76)))
  | inr e ↦ rw e (b a)
]

init_pool_size :
    (k : Heap) (i j end : ℕ) → ((init_pool i (end, k)).1.caches j).size ≡ (k.caches j).size
unfolding init_pool
init_pool_size k i j end = elim (Bool-cases (i == j)) [
  | inl e ↦ rw (e, (==_iff i j).0 e) refl
  | inr e ↦ rw e refl
]

-- The caches before i are set up.
abbrev SetUp : ℕ → ℕ × Heap → Type 0
SetUp i r = (j : ℕ) → j < i → (p : ℕ) × (0 < p) × Below r.1 j r.0 p

init_pools_lem :
    (n i : ℕ) (r : ℕ × Heap)
    → 0 < r.0
    → r.0 + n * 10000 < 2 ^ 32
    → ((j : ℕ) → 32 ≤ (r.1.caches j).size)
    → ((a : ℕ) → IsBytes (r.1.maps a))
    → SetUp i r
    → SetUp (i + n) (init_pools n i r)
unfolding init_pools
init_pools_lem zero i r z b h y s = λ j l. s j (omega arith)
init_pools_lem (suc n) i (end, k) z b h y s =
    let at = after_pool_bound k i end (h i) (omega arith) in
    let rest =
      init_pools_lem n (i + 1) (init_pool i (end, k)) (omega (arith, at.0)) (omega (arith, at.1))
        (λ j. rw (init_pool_size k i j end) (h j)) (init_pool-IsBytes k i end y)
        (λ j l. elim (Bool-cases (i == j)) [
          | inl e ↦ (
            end,
            z,
            subst (λ x. Below (init_pool i (end, k)).1 x (after_pool k i end) end)
                ((==_iff i j).0 e) (init_pool-Below k i end (h i) (omega arith) y),
          )
          | inr e ↦
              let (p, pos, below) = s j (ground arith) in
              (
                p,
                pos,
                init_pool_keeps k i j end p (λ c. absurd (ground arith)) (h i) (omega arith) below,
              )
        ]) in
    λ j l. rest j (omega arith)

-- Placing a pool changes no counter and no map.
place_pool_keeps : (end i j p : ℕ) (k : Heap) → Lone k j p → Lone (place_pool end i k) j p
place_pool_keeps end i j p k = Keeps-Lone k (place_pool end i k) j p (record {
  cache = refl;
  next = refl;
  prev = refl;
  using = same (λ s. s.using_count) refl;
  free = same (λ s. s.free_count) refl;
  count = same (λ s. s.color_count) refl;
  color_map = same (λ s. s.color_map) refl;
  map = refl;
})
  where
    pool : ℕ
    pool = (k.caches i).cache_pool

    new : Slab
    new = record (k.slabs pool) {
      page = page_2m_num (page_2m_align (end + page_2m_size * i));
      vaddress = page_2m_align (end + page_2m_size * i);
    }

    same : (f : Slab → ℕ) → f new ≡ f (k.slabs pool) → f (update k.slabs pool new p) ≡ f (k.slabs p)
    same f e = elim (Bool-cases (pool == p)) [
      | inl c ↦ rw c (e ∙ ap (λ x. f (k.slabs x)) ((==_iff pool p).0 c))
      | inr c ↦ rw c refl
    ]

place_pools_keeps : (n i end j p : ℕ) (k : Heap) → Lone k j p → Lone (place_pools n i end k) j p
unfolding place_pools
place_pools_keeps zero i end j p k l = l
place_pools_keeps (suc n) i end j p k l =
    place_pools_keeps n (i + 1) end j p (place_pool end i k) (place_pool_keeps end i j p k l)

place_pools_caches : (n i end : ℕ) (k : Heap) → (place_pools n i end k).caches ≡ k.caches
unfolding place_pools
place_pools_caches zero i end k = refl
place_pools_caches (suc n) i end k = place_pools_caches n (i + 1) end (place_pool end i k)

-- slab_init leaves each of the sixteen caches with one slab, all of whose blocks are free, and
-- with the invariant of kmalloc and kfree, where the sizes are 32 at least and 160000 bytes are
-- left behind end_of_struct.
pub slab_init_lem :
    (end : ℕ) (k : Heap)
    → 0 < end
    → end + 160000 < 2 ^ 32
    → ((j : ℕ) → 32 ≤ (k.caches j).size)
    → ((a : ℕ) → IsBytes (k.maps a))
    → (i : ℕ) → i < 16
    → IsCache (slab_init end k).1 i []
      × (((slab_init end k).1.caches i).total_free
          ≡ page_2m_size / ((slab_init end k).1.caches i).size)
unfolding slab_init
slab_init_lem end k z b h y i l =
    let (p, pos, below) =
      init_pools_lem 16 0 (end, k) z (omega arith) h y (λ j c. absurd (omega arith)) i
        (omega arith) in
    let r = init_pools 16 0 (end, k) in
    let first = page_2m_num (page_2m_align end) in
    let k₁ = record r.1 { mms = use_pages (page_2m_num r.0 + 1 - first) first r.1.mms } in
    let lone = place_pools_keeps 16 0 r.0 i p k₁ (
      Keeps-Lone r.1 k₁ i p
        (record {
          cache = refl;
          next = refl;
          prev = refl;
          using = refl;
          free = refl;
          count = refl;
          color_map = refl;
          map = refl;
        })
        below.lone) in
    (
      Lone-IsCache (slab_init end k).1 i p lone (λ e. omega (arith, e, pos)),
      rw (place_pools_caches 16 0 r.0 k₁) below.all_free,
    )
