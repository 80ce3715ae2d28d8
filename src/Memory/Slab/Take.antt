-- ===== src/Memory/Slab/Take.antt =====
-- mm/memory.c: the searches of kmalloc, for a cache, a slab and a block.
use mine_os.Prelude.{
  ℕ, zero, suc, ◌+◌, ◌*◌, ◌/◌, ◌%◌, ◌^◌, ◌<◌, ◌≤◌, ◌==◌, ◌≡◌, ◌≢◌, ◌∙◌, refl, sym, ap, true, false,
  not, arith, if◌then◌else◌, Bool-cases, inl, inr, leb, bit_and, List, [], ◌∷◌, length, Option,
  none, some, ==_refl, ==_false, ==_iff, All, ◌⊎◌,
}
use mine_os.Bits.{bit_and_pow}
use mine_os.Links.{Links, list_next}
use mine_os.Links.Ring.{IsRing, Linked, NotIn}
use mine_os.Memory.{Bytes, long_at, bits_per_long}
use mine_os.Memory.Bitmap.{bit_at, IsBytes, long_bit, long_bound}
use mine_os.Memory.Slab.{Slab, Cache, Heap, find_cache, find_slab, find_color}

-- The first block from j on that is free, of `count`.
abbrev pub FirstFree : Bytes → ℕ → ℕ → Option ℕ → Type 0
FirstFree m count j none = (p : ℕ) → j ≤ p → p < count → bit_at m p ≡ true
FirstFree m count j (some p) =
    (j ≤ p) × (p < count) × (bit_at m p ≡ false) × ((q : ℕ) → j ≤ q → q < p → bit_at m q ≡ true)

-- A long of 32 bits is never 0xffffffffffffffff.
long_short : (m : Bytes) (i : ℕ) → IsBytes m → (long_at m i == 0xffff_ffff_ffff_ffff) ≡ false
long_short m i b =
    let h = long_bound m i b in
    ==_false (long_at m i) 0xffff_ffff_ffff_ffff (λ e. omega (arith, h, e))

-- The test of bit j in its long.
long_test :
    (m : Bytes) (j : ℕ)
    → IsBytes m
    → (bit_and (long_at m (j / bits_per_long)) (2 ^ (j % bits_per_long)) == 0) ≡ not (bit_at m j)
long_test m j b =
    bit_and_pow (long_at m (j / 32)) (j % 32)
    ∙ ap not (
        long_bit m (j / 32) (j % 32) b (omega arith)
        ∙ ap (bit_at m) {x = 32 * (j / 32) + j % 32} {y = j} (omega arith))

FirstFree-suc :
    (m : Bytes) (count j : ℕ) (o : Option ℕ)
    → bit_at m j ≡ true
    → FirstFree m count (j + 1) o
    → FirstFree m count j o
FirstFree-suc m count j none e h = λ p a b. elim (Bool-cases (p == j)) [
  | inl c ↦ ap (bit_at m) ((==_iff p j).0 c) ∙ e
  | inr c ↦ h p (ground arith) b
]
FirstFree-suc m count j (some p) e h = (
  omega (arith, h.0),
  h.1,
  h.2,
  λ q a b. elim (Bool-cases (q == j)) [
    | inl c ↦ ap (bit_at m) ((==_iff q j).0 c) ∙ e
    | inr c ↦ h.3 q (ground arith) b
  ],
)

-- The search finds the first free block.
pub find_color_lem :
    (m : Bytes) (count n j : ℕ)
    → IsBytes m
    → count ≤ j + n
    → FirstFree m count j (find_color m count n j)
unfolding find_color
find_color_lem m count zero j b h = λ p a c. absurd (omega arith)
find_color_lem m count (suc n) j b h = elim (Bool-cases (leb count j)) [
  | inl c ↦ rw c (λ p a d. absurd (ground arith))
  | inr c ↦
      rw (c, long_short m (j / bits_per_long) b, long_test m j b)
        (elim (Bool-cases (bit_at m j)) [
          | inl e ↦
              rw e (FirstFree-suc m count j _ e (find_color_lem m count n (j + 1) b (omega arith)))
          | inr e ↦ rw e ((omega arith, ground arith, e, λ q x y. absurd (omega arith)))
        ])
]

-- The index of the first cache whose size is enough, of the n from i on; past them where none is.
abbrev pub FirstFit : (ℕ → Cache) → ℕ → ℕ → ℕ → Type 0
FirstFit caches size i r = (i ≤ r) × ((q : ℕ) → i ≤ q → q < r → (caches q).size < size)

-- kmalloc takes the first cache that is large enough.
pub find_cache_lem :
    (caches : ℕ → Cache) (size n i : ℕ)
    → FirstFit caches size i (find_cache caches size n i)
      × ((find_cache caches size n i ≡ i + n)
          ⊎ ((find_cache caches size n i < i + n)
              × (size ≤ (caches (find_cache caches size n i)).size)))
unfolding find_cache
find_cache_lem caches size zero i =
    ((omega arith, λ q a b. absurd (omega arith)), inl (omega arith))
find_cache_lem caches size (suc n) i = elim (Bool-cases (leb size (caches i).size)) [
  | inl c ↦ rw c ((omega arith, λ q a b. absurd (omega arith)), inr (omega arith, ground arith))
  | inr c ↦
      let r = find_cache_lem caches size n (i + 1) in
      rw c (
        (
          omega (arith, r.0.0),
          λ q a b. elim (Bool-cases (q == i)) [
            | inl d ↦ rw ((==_iff q i).0 d) (ground arith)
            | inr d ↦ r.0.1 q (ground arith) b
          ],
        ),
        elim r.1 [ inl e ↦ inl (omega (arith, e)) | inr e ↦ inr (omega (arith, e.0), e.1) ],
      )
]

-- The first slab of a list with a free block.
abbrev pub first_free : (ℕ → Slab) → List ℕ → Option ℕ
first_free slabs [] = none
first_free slabs (s ∷ ss) = if (slabs s).free_count == 0 then first_free slabs ss else some s

-- No slab is the null pointer.
abbrev pub NonNull : List ℕ → Type 0
NonNull = All (λ s. s ≢ 0)

pub list_next_lem : (h : Links) (s t : ℕ) → h.next s ≡ t → t ≢ 0 → list_next h s ≡ t
unfolding list_next
list_next_lem h s t e n = rw (e, ==_false t 0 n) refl

find_slab-tail :
    (fuel pool s : ℕ) (ss : List ℕ) (k : Heap)
    → Linked k.links s ss pool
    → NotIn pool ss
    → NonNull (pool ∷ ss)
    → length ss < fuel
    → find_slab fuel pool s k ≡ first_free k.slabs (s ∷ ss)
unfolding find_slab
find_slab-tail zero pool s ss k l d n f = absurd (omega arith)
find_slab-tail (suc fuel) pool s [] k l d n f =
    rw (list_next_lem k.links s pool l.0 n.0, ==_refl pool) refl
find_slab-tail (suc fuel) pool s (t ∷ ss) k l d n f =
    rw
      (
        list_next_lem k.links s t l.0 n.1.0,
        ==_false t pool (λ e. d.0 (sym e)),
        find_slab-tail fuel pool t ss k l.2 d.1 (n.0, n.1.1) (omega arith),
      )
      refl

-- The walk of kmalloc over the ring of the slabs ends, at the first slab with a free block.
pub find_slab_lem :
    (fuel pool : ℕ) (ss : List ℕ) (k : Heap)
    → IsRing k.links pool ss
    → NonNull (pool ∷ ss)
    → length ss < fuel
    → find_slab fuel pool pool k ≡ first_free k.slabs (pool ∷ ss)
find_slab_lem fuel pool ss k r n f = find_slab-tail fuel pool pool ss k r.linked r.distinct.0 n f
