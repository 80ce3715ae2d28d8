-- ===== src/Memory/Slab/Kfree.antt =====
-- mm/memory.c: kfree, on what kmalloc returned and on other addresses.
use mathlib.Core.List.{Memᴰ}
use mine_os.Prelude.{
  ℕ, zero, suc, ◌<◌, ◌==◌, ◌≡◌, ◌≢◌, refl, sym, arith, if◌then◌else◌, Bool-cases, inl, inr, List,
  [], ◌∷◌, length, some, ==_refl, ==_false, ==_iff, All,
}
use mine_os.Links.Ring.{IsRing, Linked, NotIn}
use mine_os.Memory.Slab.{Slab, Heap}
use mine_os.Memory.Slab.Free.{slab_of}
use mine_os.Memory.Slab.Take.{NonNull, list_next_lem}

-- The first slab of a list whose memory is at `base`, or else the pool.
abbrev pub first_at : (ℕ → Slab) → ℕ → ℕ → List ℕ → ℕ
first_at slabs base pool [] = pool
first_at slabs base pool (s ∷ ss) =
    if (slabs s).vaddress == base then s else first_at slabs base pool ss

slab_of-tail :
    (fuel pool base s : ℕ) (ss : List ℕ) (k : Heap)
    → Linked k.links s ss pool
    → NotIn pool ss
    → NonNull (pool ∷ ss)
    → length ss < fuel
    → slab_of fuel pool base s k ≡ some (first_at k.slabs base pool (s ∷ ss))
unfolding slab_of
slab_of-tail zero pool base s ss k l d n f = absurd (omega arith)
slab_of-tail (suc fuel) pool base s [] k l d n f =
    rw (list_next_lem k.links s pool l.0 n.0, ==_refl pool)
      (elim (Bool-cases ((k.slabs s).vaddress == base)) [ inl e ↦ rw e refl | inr e ↦ rw e refl ])
slab_of-tail (suc fuel) pool base s (t ∷ ss) k l d n f =
    rw
      (
        list_next_lem k.links s t l.0 n.1.0,
        ==_false t pool (λ e. d.0 (sym e)),
        slab_of-tail fuel pool base t ss k l.2 d.1 (n.0, n.1.1) (omega arith),
      )
      (elim (Bool-cases ((k.slabs s).vaddress == base)) [ inl e ↦ rw e refl | inr e ↦ rw e refl ])

-- The walk of kfree over the ring of the slabs ends, at the first slab with memory at `base`, or
-- at the pool where there is none.
pub slab_of_lem :
    (fuel pool base : ℕ) (ss : List ℕ) (k : Heap)
    → IsRing k.links pool ss
    → NonNull (pool ∷ ss)
    → length ss < fuel
    → slab_of fuel pool base pool k ≡ some (first_at k.slabs base pool (pool ∷ ss))
slab_of_lem fuel pool base ss k r n f =
    slab_of-tail fuel pool base pool ss k r.linked r.distinct.0 n f

-- No slab of the list has its memory at `base`.
abbrev pub Elsewhere : (ℕ → Slab) → ℕ → List ℕ → Type 0
Elsewhere slabs base = All (λ s. (slabs s).vaddress ≢ base)

pub first_at_lem :
    (slabs : ℕ → Slab) (base pool s : ℕ) (ss : List ℕ)
    → Memᴰ s ss
    → (slabs s).vaddress ≡ base
    → ((t : ℕ) → Memᴰ t ss → s ≢ t → (slabs t).vaddress ≢ base)
    → first_at slabs base pool ss ≡ s
first_at_lem slabs base pool s [] m e o = elim m [ ]
first_at_lem slabs base pool s (t ∷ ss) m e o = elim (Bool-cases (s == t)) [
  | inl c ↦ let at : s ≡ t = (==_iff s t).0 c in rw (sym at, e, ==_refl base) refl
  | inr c ↦
      let ne : s ≢ t = λ d. absurd (ground arith) in
      rw
        (
          ==_false (slabs t).vaddress base (o t (Memᴰ.head refl) ne),
          first_at_lem slabs base pool s ss (later s t ss ne m) e (λ u a. o u (Memᴰ.tail a)),
        )
        refl
]
  where
    later : (s t : ℕ) (ss : List ℕ) → s ≢ t → Memᴰ s (t ∷ ss) → Memᴰ s ss
    later s t ss n (Memᴰ.head e) = absurd (n e)
    later s t ss n (Memᴰ.tail m) = m
