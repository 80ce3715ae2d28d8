-- ===== src/Memory/Slab/Grow.antt =====
-- mm/memory.c: kmalloc where the cache has no free block and makes a slab for one.
use mathlib.Core.List.{Memᴰ}
use mine_os.Prelude.{
  ℕ, ◌+◌, ◌^◌, ◌<◌, ◌≡◌, ◌≢◌, ◌∙◌, refl, sym, subst, arith, inl, inr, List, [], ◌∷◌, ◌++◌, ◌⊎◌,
}
use mine_os.Links.{list_init, list_add_to_before}
use mine_os.Links.Ring.{NotIn}
use mine_os.Links.Splice.{list_add_to_before-IsRing, IsRing-list_init}
use mine_os.Memory.Slab.{Slab, Heap}
use mine_os.Memory.Slab.Take.{NonNull}
use mine_os.Memory.Slab.Invariant.{NotIn-Memᴰ, IsCache, IsSlab, total}

-- The list of slabs with one more at the end.
total_append :
    (f : Slab → ℕ) (slabs slabs' : ℕ → Slab) (s : ℕ) (ss : List ℕ)
    → NotIn s ss
    → ((t : ℕ) → s ≢ t → slabs' t ≡ slabs t)
    → total f slabs' (ss ++ s ∷ []) ≡ total f slabs ss + f (slabs' s)
total_append f slabs slabs' s [] n h = omega arith
total_append f slabs slabs' s (t ∷ ss) n h =
    rw (h t n.0) (omega (arith, total_append f slabs slabs' s ss n.1 h))

Memᴰ-append : (t s : ℕ) (ss : List ℕ) → Memᴰ t (ss ++ s ∷ []) → Memᴰ t ss ⊎ (s ≡ t)
Memᴰ-append t s [] (Memᴰ.head e) = inr (sym e)
Memᴰ-append t s [] (Memᴰ.tail m) = elim m [ ]
Memᴰ-append t s (x ∷ ss) (Memᴰ.head e) = inl (Memᴰ.head e)
Memᴰ-append t s (x ∷ ss) (Memᴰ.tail m) = elim (Memᴰ-append t s ss m) [
  | inl a ↦ inl (Memᴰ.tail a)
  | inr e ↦ inr e
]

pub Memᴰ_last : (s : ℕ) (ss : List ℕ) → Memᴰ s (ss ++ s ∷ [])
Memᴰ_last s [] = Memᴰ.head refl
Memᴰ_last s (x ∷ ss) = Memᴰ.tail (Memᴰ_last s ss)

NonNull-append : (s : ℕ) (ss : List ℕ) → NonNull ss → s ≢ 0 → NonNull (ss ++ s ∷ [])
NonNull-append s [] n h = (h, tt)
NonNull-append s (t ∷ ss) n h = (n.0, NonNull-append s ss n.1 h)

-- A heap with one more slab in cache i, all of whose blocks are free.
pub record Grown (k k' : Heap) (i s : ℕ) : Type 0 where
  pub old_slab : (t : ℕ) → s ≢ t → k'.slabs t ≡ k.slabs t
  pub old_map : (a : ℕ) → (k'.slabs s).color_map ≢ a → k'.maps a ≡ k.maps a
  pub new : IsSlab k' s
  pub links : k'.links ≡ list_add_to_before (list_init k.links s) (k.caches i).cache_pool s
  pub pool : (k'.caches i).cache_pool ≡ (k.caches i).cache_pool
  pub unused : (k'.slabs s).using_count ≡ 0
  pub total_free : (k'.caches i).total_free ≡ (k.caches i).total_free + (k'.slabs s).free_count
  pub total_using : (k'.caches i).total_using ≡ (k.caches i).total_using
  pub bound : (k'.caches i).total_free + (k'.caches i).total_using < 2 ^ 32

-- The slab and its map are not in the cache yet.
pub record Unknown (k : Heap) (i s color_map : ℕ) (ss : List ℕ) : Type 0 where
  pub slab : NotIn s ((k.caches i).cache_pool ∷ ss)
  pub non_null : s ≢ 0
  pub map : (t : ℕ) → Memᴰ t ((k.caches i).cache_pool ∷ ss) → color_map ≢ (k.slabs t).color_map

Grown-IsSlab :
    (k k' : Heap) (i s t : ℕ)
    → Grown k k' i s
    → s ≢ t
    → (k'.slabs s).color_map ≢ (k.slabs t).color_map
    → IsSlab k t
    → IsSlab k' t
Grown-IsSlab k k' i s t g n d r = record {
  bytes = rw (g.old_slab t n, g.old_map (k.slabs t).color_map d) r.bytes;
  free = rw (g.old_slab t n, g.old_map (k.slabs t).color_map d) r.free;
  all = rw (g.old_slab t n) r.all;
}

-- The new slab is the last one of the cache, whose invariant holds.
pub Grown-IsCache :
    (k k' : Heap) (i s : ℕ) (ss : List ℕ)
    → IsCache k i ss
    → Unknown k i s (k'.slabs s).color_map ss
    → Grown k k' i s
    → IsCache k' i (ss ++ s ∷ [])
Grown-IsCache k k' i s ss h u g =
    let pool = (k.caches i).cache_pool in
    record {
      ring =
          rw (g.pool, g.links)
            (list_add_to_before-IsRing s (IsRing-list_init s h.ring u.slab) u.slab);
      non_null = rw g.pool (NonNull-append s (pool ∷ ss) h.non_null u.non_null);
      slab = subst (λ p. (t : ℕ) → Memᴰ t (p ∷ ss ++ s ∷ []) → IsSlab k' t) (sym g.pool) slab;
      own_map = rw g.pool own;
      free = rw g.pool (
          omega (
            arith,
            total_append (λ x. x.free_count) k.slabs k'.slabs s (pool ∷ ss) u.slab g.old_slab,
            h.free,
            g.total_free,
          ));
      using = rw g.pool (
          omega (
            arith,
            total_append (λ x. x.using_count) k.slabs k'.slabs s (pool ∷ ss) u.slab g.old_slab,
            h.using,
            g.total_using,
            g.unused,
          ));
      bound = g.bound;
    }
  where
    other : (t : ℕ) → Memᴰ t ((k.caches i).cache_pool ∷ ss) → s ≢ t
    other t m = NotIn-Memᴰ s t ((k.caches i).cache_pool ∷ ss) u.slab m

    slab : (t : ℕ) → Memᴰ t ((k.caches i).cache_pool ∷ ss ++ s ∷ []) → IsSlab k' t
    slab t m = elim (Memᴰ-append t s ((k.caches i).cache_pool ∷ ss) m) [
      | inl a ↦ Grown-IsSlab k k' i s t g (other t a) (u.map t a) (h.slab t a)
      | inr e ↦ subst (IsSlab k') e g.new
    ]

    own :
        (t v : ℕ)
        → Memᴰ t ((k.caches i).cache_pool ∷ ss ++ s ∷ [])
        → Memᴰ v ((k.caches i).cache_pool ∷ ss ++ s ∷ [])
        → t ≢ v
        → (k'.slabs t).color_map ≢ (k'.slabs v).color_map
    own t v m l n = elim (Memᴰ-append t s ((k.caches i).cache_pool ∷ ss) m) [
      | inl a ↦ elim (Memᴰ-append v s ((k.caches i).cache_pool ∷ ss) l) [
        | inl b ↦ rw (g.old_slab t (other t a), g.old_slab v (other v b)) (h.own_map t v a b n)
        | inr e ↦
            rw (g.old_slab t (other t a)) (
              subst (λ x. (k.slabs t).color_map ≢ (k'.slabs x).color_map) e
                (λ c. u.map t a (sym c)))
      ]
      | inr e ↦ elim (Memᴰ-append v s ((k.caches i).cache_pool ∷ ss) l) [
        | inl b ↦
            rw (g.old_slab v (other v b))
              (subst (λ x. (k'.slabs x).color_map ≢ (k.slabs v).color_map) e (u.map v b))
        | inr f ↦ absurd (n (sym e ∙ f))
      ]
    ]
