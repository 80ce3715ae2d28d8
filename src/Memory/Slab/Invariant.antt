-- ===== src/Memory/Slab/Invariant.antt =====
-- mm/memory.c: what the slabs, the maps and the counters of a cache say of one another.
use mathlib.Core.List.{Memᴰ}
use mine_os.Prelude.{
  ℕ, zero, suc, ◌+◌, ◌%◌, ◌^◌, ◌<◌, ◌≤◌, ◌==◌, ◌≡◌, ◌≢◌, ◌∙◌, refl, sym, ap, subst, true, false,
  arith, if◌then◌else◌, Bool-cases, inl, inr, ltb, List, [], ◌∷◌, ==_iff, bit_and, bit_or, bit_xor,
}
use mine_os.Bits.{
  test_bit, test_bit-or, test_bit-and, test_bit-xor, test_bit-mod, test_bit_above, eq_of_bits,
}
use mine_os.Links.{update}
use mine_os.Links.Ring.{IsRing, Distinct, NotIn}
use mine_os.Links.Splice.{update_self, update_ne}
use mine_os.Memory.{Bytes}
use mine_os.Memory.Bitmap.{bit_at, IsBytes}
use mine_os.Memory.Slab.{Slab, Cache, Heap, set_slab, set_map, set_cache}
use mine_os.Memory.Slab.Take.{NonNull}

-- The number of clear bits among the first n.
abbrev pub free_blocks : Bytes → ℕ → ℕ
free_blocks m zero = 0
free_blocks m (suc n) = free_blocks m n + (if bit_at m n then 0 else 1)

-- The sum of a field over the slabs of a list.
abbrev pub total : (Slab → ℕ) → (ℕ → Slab) → List ℕ → ℕ
total f slabs [] = 0
total f slabs (s ∷ ss) = f (slabs s) + total f slabs ss

-- The map of a slab counts its blocks.
pub record IsSlab (k : Heap) (s : ℕ) : Type 0 where
  pub bytes : IsBytes (k.maps (k.slabs s).color_map)
  pub free :
      (k.slabs s).free_count ≡ free_blocks (k.maps (k.slabs s).color_map) (k.slabs s).color_count
  pub all : (k.slabs s).using_count + (k.slabs s).free_count ≡ (k.slabs s).color_count

-- Cache i with the slabs ss after its pool.
pub record IsCache (k : Heap) (i : ℕ) (ss : List ℕ) : Type 0 where
  pub ring : IsRing k.links (k.caches i).cache_pool ss
  pub non_null : NonNull ((k.caches i).cache_pool ∷ ss)
  pub slab : (s : ℕ) → Memᴰ s ((k.caches i).cache_pool ∷ ss) → IsSlab k s
  pub own_map :
      (s t : ℕ)
      → Memᴰ s ((k.caches i).cache_pool ∷ ss)
      → Memᴰ t ((k.caches i).cache_pool ∷ ss)
      → s ≢ t
      → (k.slabs s).color_map ≢ (k.slabs t).color_map
  pub free :
      total (λ s. s.free_count) k.slabs ((k.caches i).cache_pool ∷ ss) ≡ (k.caches i).total_free
  pub using :
      total (λ s. s.using_count) k.slabs ((k.caches i).cache_pool ∷ ss) ≡ (k.caches i).total_using
  pub bound : (k.caches i).total_free + (k.caches i).total_using < 2 ^ 32

total_other :
    (f : Slab → ℕ) (slabs : ℕ → Slab) (s : ℕ) (v : Slab) (ss : List ℕ)
    → NotIn s ss
    → total f (update slabs s v) ss ≡ total f slabs ss
total_other f slabs s v [] n = refl
total_other f slabs s v (t ∷ ss) n =
    rw (update_ne slabs s v t n.0, total_other f slabs s v ss n.1) refl

pub NotIn-Memᴰ : (s t : ℕ) (ss : List ℕ) → NotIn s ss → Memᴰ t ss → s ≢ t
NotIn-Memᴰ s t [] n m = elim m [ ]
NotIn-Memᴰ s t (x ∷ ss) n (Memᴰ.head e) = λ c. n.0 (c ∙ e)
NotIn-Memᴰ s t (x ∷ ss) n (Memᴰ.tail m) = NotIn-Memᴰ s t ss n.1 m

-- A change of one slab changes the sum by as much.
pub total-update :
    (f : Slab → ℕ) (slabs : ℕ → Slab) (s : ℕ) (v : Slab) (ss : List ℕ)
    → Distinct ss
    → Memᴰ s ss
    → total f (update slabs s v) ss + f (slabs s) ≡ total f slabs ss + f v
total-update f slabs s v [] d m = elim m [ ]
total-update f slabs s v (x ∷ ss) d (Memᴰ.head e) =
    subst (λ t. total f (update slabs t v) (x ∷ ss) + f (slabs t) ≡ total f slabs (x ∷ ss) + f v)
      (sym e) (rw (update_self slabs x v) (omega (arith, total_other f slabs x v ss d.0)))
total-update f slabs s v (x ∷ ss) d (Memᴰ.tail m) =
    rw (update_ne slabs s v x (λ e. NotIn-Memᴰ x s ss d.0 m (sym e)))
      (omega (arith, total-update f slabs s v ss d.1 m))

-- A slab counts in the sum.
pub total_bound :
    (f : Slab → ℕ) (slabs : ℕ → Slab) (s : ℕ) (ss : List ℕ)
    → Memᴰ s ss
    → f (slabs s) ≤ total f slabs ss
total_bound f slabs s [] m = elim m [ ]
total_bound f slabs s (x ∷ ss) (Memᴰ.head e) = rw e (omega arith)
total_bound f slabs s (x ∷ ss) (Memᴰ.tail m) = omega (arith, total_bound f slabs s ss m)

pub free_blocks_bound : (m : Bytes) (n : ℕ) → free_blocks m n ≤ n
free_blocks_bound m zero = omega arith
free_blocks_bound m (suc n) = ground (arith, free_blocks_bound m n)

-- Maps that agree below n have as many free blocks there.
free_blocks_cong :
    (m m' : Bytes) (n : ℕ)
    → ((q : ℕ) → q < n → bit_at m' q ≡ bit_at m q)
    → free_blocks m' n ≡ free_blocks m n
free_blocks_cong m m' zero h = refl
free_blocks_cong m m' (suc n) h =
    rw (h n (omega arith), free_blocks_cong m m' n (λ q l. h q (omega arith))) refl

-- Taking the block j of n leaves one free block less.
pub free_blocks_taken :
    (m m' : Bytes) (j n : ℕ)
    → j < n
    → bit_at m j ≡ false
    → bit_at m' j ≡ true
    → ((q : ℕ) → j ≢ q → bit_at m' q ≡ bit_at m q)
    → suc (free_blocks m' n) ≡ free_blocks m n
free_blocks_taken m m' j zero l f t h = absurd (omega arith)
free_blocks_taken m m' j (suc n) l f t h = elim (Bool-cases (j == n)) [
  | inl e ↦
      let at : j ≡ n = (==_iff j n).0 e in
      rw (sym at, f, t, free_blocks_cong m m' j (λ q b. h q (λ (c : j ≡ q). omega (arith, c))))
        (omega arith)
  | inr e ↦ rw (h n (ground arith)) (omega (arith, free_blocks_taken m m' j n (ground arith) f t h))
]

-- A heap in which the map, the counters and the cache of slab s are replaced.
abbrev pub changed : Heap → ℕ → ℕ → Bytes → Slab → Cache → Heap
changed k i s m v c = set_cache (set_slab (set_map k (k.slabs s).color_map m) s v) i c

-- What of the change keeps the books of cache i.
pub record Balanced (k : Heap) (i s : ℕ) (m : Bytes) (v : Slab) (c : Cache) : Type 0 where
  pub bytes : IsBytes m
  pub same_map : v.color_map ≡ (k.slabs s).color_map
  pub free : v.free_count ≡ free_blocks m v.color_count
  pub all : v.using_count + v.free_count ≡ v.color_count
  pub same_pool : c.cache_pool ≡ (k.caches i).cache_pool
  pub total_free : c.total_free + (k.slabs s).free_count ≡ (k.caches i).total_free + v.free_count
  pub total_using :
      c.total_using + (k.slabs s).using_count ≡ (k.caches i).total_using + v.using_count
  pub bound : c.total_free + c.total_using < 2 ^ 32

changed-IsSlab :
    (k : Heap) (i s : ℕ) (m : Bytes) (v : Slab) (c : Cache)
    → Balanced k i s m v c
    → (t : ℕ) → ((s ≢ t) → ((k.slabs s).color_map ≢ (k.slabs t).color_map) × IsSlab k t)
    → IsSlab (changed k i s m v c) t
changed-IsSlab k i s m v c b t other = elim (Bool-cases (s == t)) [
  | inl e ↦
      let at : s ≡ t = (==_iff s t).0 e in
      subst (IsSlab (changed k i s m v c)) at (record {
        bytes =
            rw (update_self k.slabs s v, b.same_map, update_self k.maps (k.slabs s).color_map m)
              b.bytes;
        free =
            rw (update_self k.slabs s v, b.same_map, update_self k.maps (k.slabs s).color_map m)
              b.free;
        all = rw (update_self k.slabs s v) b.all;
      })
  | inr e ↦
      let ne : s ≢ t = λ c. absurd (ground arith) in
      let r = other ne in
      record {
        bytes = rw (update_ne k.slabs s v t ne, update_ne k.maps _ m _ r.0) r.1.bytes;
        free = rw (update_ne k.slabs s v t ne, update_ne k.maps _ m _ r.0) r.1.free;
        all = rw (update_ne k.slabs s v t ne) r.1.all;
      }
]

-- A balanced change of a slab keeps the invariant of its cache.
pub changed-IsCache :
    (k : Heap) (i s : ℕ) (m : Bytes) (v : Slab) (c : Cache) (ss : List ℕ)
    → IsCache k i ss
    → Memᴰ s ((k.caches i).cache_pool ∷ ss)
    → Balanced k i s m v c
    → IsCache (changed k i s m v c) i ss
changed-IsCache k i s m v c ss h a b =
    let pool = update_self k.caches i c in
    let here : (k.caches i).cache_pool ≡ (update k.caches i c i).cache_pool =
      sym (ap (λ (x : Cache). x.cache_pool) pool ∙ b.same_pool) in
    record {
      ring = rw (pool, b.same_pool) h.ring;
      non_null = rw (pool, b.same_pool) h.non_null;
      slab =
          subst (λ p. (t : ℕ) → Memᴰ t (p ∷ ss) → IsSlab (changed k i s m v c) t) here
            (λ t l. changed-IsSlab k i s m v c b t (λ n. (h.own_map s t a l n, h.slab t l)));
      own_map = rw (pool, b.same_pool) (λ t u l n e. rw (same t, same u) (h.own_map t u l n e));
      free =
          rw (pool, b.same_pool)
            (omega (
              arith,
              total-update (λ x. x.free_count) k.slabs s v _ h.ring.distinct a,
              h.free,
              b.total_free,
            ));
      using =
          rw (pool, b.same_pool)
            (omega (
              arith,
              total-update (λ x. x.using_count) k.slabs s v _ h.ring.distinct a,
              h.using,
              b.total_using,
            ));
      bound = rw pool b.bound;
    }
  where
    same : (t : ℕ) → (update k.slabs s v t).color_map ≡ (k.slabs t).color_map
    same t = elim (Bool-cases (s == t)) [
      | inl e ↦ rw (e, b.same_map, (==_iff s t).0 e) refl
      | inr e ↦ rw e refl
    ]

byte_of_bits : (x : ℕ) → ((i : ℕ) → 8 ≤ i → test_bit x i ≡ false) → x < 256
byte_of_bits x z =
    let e : x ≡ x % 2 ^ 8 = eq_of_bits _ _ (λ i. sym (
      test_bit-mod i 8 x ∙ elim (Bool-cases (ltb i 8)) [
        | inl c ↦ rw c refl
        | inr c ↦ rw (c, z i (ground (arith, c))) refl
      ])) in
    omega (arith, e)

pub or_byte : (a b : ℕ) → a < 256 → b < 256 → bit_or a b < 256
or_byte a b h l =
    byte_of_bits (bit_or a b)
      (λ i c. test_bit-or i a b ∙ rw (test_bit_above i 8 a h c, test_bit_above i 8 b l c) refl)

pub xor_byte : (a b : ℕ) → a < 256 → b < 256 → bit_xor a b < 256
xor_byte a b h l =
    byte_of_bits (bit_xor a b)
      (λ i c. test_bit-xor i a b ∙ rw (test_bit_above i 8 a h c, test_bit_above i 8 b l c) refl)

pub and_byte : (a b : ℕ) → a < 256 → bit_and a b < 256
and_byte a b h =
    byte_of_bits (bit_and a b) (λ i c. test_bit-and i a b ∙ rw (test_bit_above i 8 a h c) refl)
