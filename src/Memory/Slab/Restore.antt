-- ===== src/Memory/Slab/Restore.antt =====
-- mm/memory.c: giving back a block that was just taken restores what taking it changed.
use native.Mathlib.Nat.{mul-le-mul_left, mul-div_cancel}
use mathlib.Core.List.{Memᴰ}
use mine_os.Prelude.{
  ℕ, ◌+◌, ◌-◌, ◌*◌, ◌/◌, ◌%◌, ◌^◌, ◌<◌, ◌≤◌, ◌==◌, ◌≡◌, ◌∙◌, refl, sym, ap, Bool, true, false, ◌||◌,
  arith, Bool-cases, inl, inr, List, ◌∷◌, ==_iff, bit_or, bit_xor,
}
use mine_os.Bits.{eq_of_bits, test_bit, test_bit-xor, test_bit-or, test_bit-pow, xor_bit}
use mine_os.Links.{update}
use mine_os.Links.Splice.{update_self}
use mine_os.Memory.{Bytes, bit_set, bit_not, plus, minus}
use mine_os.Memory.Bitmap.{bit_at}
use mine_os.Memory.Slab.{Slab, Cache, Heap, set_slab, set_map, set_cache, take_color}
use mine_os.Memory.Slab.Free.{put_color}
use mine_os.Memory.Slab.Invariant.{IsCache, total_bound}

-- Writing twice leaves the last value, and writing what was there leaves the memory.
update_back : {A : Type 0} (f : ℕ → A) (p : ℕ) (v w : A) → w ≡ f p → update (update f p v) p w ≡ f
update_back f p v w e = λ t q. go q t
  where
    go : (q : ℕ) → update (update f p v) p w q ≡ f q
    go q = elim (Bool-cases (p == q)) [
      | inl c ↦ rw (c, e, (==_iff p q).0 c) refl
      | inr c ↦ rw c refl
    ]

xor_or : (c d : Bool) → (d ≡ true → c ≡ false) → xor_bit (c || d) d ≡ c
xor_or true true f = sym (f refl)
xor_or true false f = refl
xor_or false true f = refl
xor_or false false f = refl

xor-or_pow : (a p : ℕ) → test_bit a p ≡ false → bit_xor (bit_or a (2 ^ p)) (2 ^ p) ≡ a
xor-or_pow a p h = eq_of_bits _ _ (λ i.
    test_bit-xor i (bit_or a (2 ^ p)) (2 ^ p)
    ∙ rw (test_bit-or i a (2 ^ p), test_bit-pow i p)
        (xor_or (test_bit a i) (i == p) (λ e. ap (test_bit a) ((==_iff i p).0 e) ∙ h)))

-- Turning a bit that was just set, and was clear before, leaves the map.
bit_not-bit_set : (x : Bytes) (p : ℕ) → bit_at x p ≡ false → bit_not (bit_set x p) p ≡ x
unfolding bit_not bit_set
bit_not-bit_set x p h = update_back x (p / 8) _ _ (
    rw (update_self x (p / 8) (bit_or (x (p / 8)) (2 ^ (p % 8))))
      (xor-or_pow (x (p / 8)) (p % 8) h))

-- What put_color makes of a heap, by what it reads in it.
put_as : Heap → ℕ → ℕ → Slab → Cache → Bytes → ℕ → Heap
put_as k i slab s c m address =
    set_cache
      (set_slab
        (set_map k s.color_map (bit_not m ((address + 2 ^ 32 - s.vaddress) % 2 ^ 32 / c.size))) slab
        (record s { free_count = plus s.free_count 1; using_count = minus s.using_count 1 }))
      i (record c { total_free = plus c.total_free 1; total_using = minus c.total_using 1 })

put_color_as :
    (k : Heap) (i slab address : ℕ) (s : Slab) (c : Cache) (m : Bytes)
    → k.slabs slab ≡ s
    → k.caches i ≡ c
    → k.maps s.color_map ≡ m
    → put_color i slab address k ≡ put_as k i slab s c m address
unfolding put_color put_as
put_color_as k i slab address s c m e f g =
    λ t. put_as k i slab (e t) (f t) ((ap (λ (x : Slab). k.maps x.color_map) e ∙ g) t) address

-- A slab whose blocks are in its own 2 MB.
pub record Placed (k : Heap) (s : ℕ) : Type 0 where
  pub aligned : (k.slabs s).vaddress % 2 ^ 21 ≡ 0
  pub top : (k.slabs s).vaddress + 2 ^ 21 ≤ 2 ^ 32
  pub size : 0 < (k.caches 0).size
  pub room : (k.caches 0).size * (k.slabs s).color_count ≤ 2 ^ 21

pub base_of :
    (v t : ℕ)
    → v % 2 ^ 21 ≡ 0
    → t < 2 ^ 21
    → v + 2 ^ 21 ≤ 2 ^ 32
    → (v + t) % 2 ^ 32 / 2 ^ 21 * 2 ^ 21 ≡ v
base_of v t a b c = omega arith

pub inside :
    (k : Heap) (s j : ℕ) → Placed k s → j < (k.slabs s).color_count → (k.caches 0).size * j < 2 ^ 21
inside k s j p l =
    let h : (k.caches 0).size * (j + 1) ≤ (k.caches 0).size * (k.slabs s).color_count =
      mul-le-mul_left (k.caches 0).size (omega arith) in
    omega (arith, h, p.room, p.size)

index_of :
    (k : Heap) (s j : ℕ)
    → Placed k s
    → j < (k.slabs s).color_count
    → (((k.slabs s).vaddress + (k.caches 0).size * j) % 2 ^ 32 + 2 ^ 32 - (k.slabs s).vaddress)
        % 2 ^ 32
        / (k.caches 0).size
      ≡ j
index_of k s j p l =
    let h = inside k s j p l in
    ap (λ x. x / (k.caches 0).size)
      {x = (((k.slabs s).vaddress + (k.caches 0).size * j) % 2 ^ 32 + 2 ^ 32 - (k.slabs s).vaddress)
        % 2 ^ 32}
      {y = j * (k.caches 0).size} (omega (arith, h, p.top))
    ∙ mul-div_cancel j p.size

plus-minus : (x : ℕ) → x < 2 ^ 32 → plus (minus x 1) 1 ≡ x
plus-minus x h = omega arith

minus-plus : (x : ℕ) → x < 2 ^ 32 → minus (plus x 1) 1 ≡ x
minus-plus x h = omega arith

pub put_color-take_color :
    (s j : ℕ) (k : Heap) (ss : List ℕ)
    → IsCache k 0 ss
    → Memᴰ s ((k.caches 0).cache_pool ∷ ss)
    → j < (k.slabs s).color_count
    → bit_at (k.maps (k.slabs s).color_map) j ≡ false
    → Placed k s
    → put_color 0 s (take_color 0 s j k).0 (take_color 0 s j k).1 ≡ k
unfolding take_color put_as
put_color-take_color s j k ss h a l f p =
    let cm = (k.slabs s).color_map in
    let m = bit_set (k.maps cm) j in
    let c = k.caches 0 in
    let tf = total_bound (λ x. x.free_count) k.slabs s _ a in
    let tu = total_bound (λ x. x.using_count) k.slabs s _ a in
    let v : Slab = record (k.slabs s) {
      using_count = plus (k.slabs s).using_count 1;
      free_count = minus (k.slabs s).free_count 1;
    } in
    let back = bit_not m (
      (((k.slabs s).vaddress + c.size * j) % 2 ^ 32 + 2 ^ 32 - (k.slabs s).vaddress)
      % 2 ^ 32
      / c.size) in
    let maps : update (update k.maps cm m) cm back ≡ k.maps =
      update_back k.maps cm m back (rw (index_of k s j p l) (bit_not-bit_set (k.maps cm) j f)) in
    let slab : record v { free_count = plus v.free_count 1; using_count = minus v.using_count 1 }
        ≡ k.slabs s =
      (λ t. record (k.slabs s) {
        free_count = plus-minus (k.slabs s).free_count (omega (arith, tf, h.free, h.bound)) t;
        using_count = minus-plus (k.slabs s).using_count (omega (arith, tu, h.using, h.bound)) t;
      }) in
    let slabs = update_back k.slabs s v _ slab in
    let caches =
      update_back k.caches 0
        (record c { total_free = minus c.total_free 1; total_using = plus c.total_using 1 })
        (record c {
          total_free = plus (minus c.total_free 1) 1;
          total_using = minus (plus c.total_using 1) 1;
        })
        (λ t. record c {
          total_free = plus-minus c.total_free (omega (arith, h.bound)) t;
          total_using = minus-plus c.total_using (omega (arith, h.bound)) t;
        }) in
    put_color_as (take_color 0 s j k).1 0 s (take_color 0 s j k).0 v _ m (update_self k.slabs s v)
      refl (update_self k.maps cm m)
    ∙ (λ t. record k { maps = maps t; slabs = slabs t; caches = caches t })
