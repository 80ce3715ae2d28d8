-- ===== src/Memory/Slab/Blocks.antt =====
-- mm/memory.c: that taking a block and giving one back keep the books of a cache.
use native.Mathlib.Nat.{pow-le-pow_right}
use mathlib.Core.List.{Memᴰ}
use mine_os.Prelude.{
  ℕ, ◌+◌, ◌-◌, ◌/◌, ◌%◌, ◌^◌, ◌<◌, ◌≤◌, ◌==◌, ◌≡◌, ◌∙◌, refl, sym, Bool, true, false, arith,
  Bool-cases, inl, inr, List, ◌∷◌, ==_refl, ==_false,
}
use mine_os.Bits.{xor_bit}
use mine_os.Memory.{Bytes, bit_set, bit_not, bit_clr}
use mine_os.Memory.Bitmap.{bit_at, IsBytes, bit_set_lem, bit_not_lem}
use mine_os.Memory.Slab.{Heap, take_color}
use mine_os.Memory.Slab.Free.{put_color}
use mine_os.Memory.Slab.Invariant.{
  IsCache, changed-IsCache, free_blocks_taken, free_blocks_bound, total_bound, or_byte, xor_byte,
  and_byte,
}

pow_byte : (p : ℕ) → 2 ^ (p % 8) < 256
pow_byte p =
    let h : 2 ^ (p % 8) ≤ 2 ^ 7 =
      pow-le-pow_right {n = 2} (omega arith) {i = p % 8} {j = 7} (omega arith) in
    omega (arith, h)

pub bit_set-IsBytes : (x : Bytes) (p : ℕ) → IsBytes x → IsBytes (bit_set x p)
unfolding bit_set
bit_set-IsBytes x p b i = elim (Bool-cases (p / 8 == i)) [
  | inl e ↦ rw e (or_byte (x (p / 8)) (2 ^ (p % 8)) (b (p / 8)) (pow_byte p))
  | inr e ↦ rw e (b i)
]

pub bit_not-IsBytes : (x : Bytes) (p : ℕ) → IsBytes x → IsBytes (bit_not x p)
unfolding bit_not
bit_not-IsBytes x p b i = elim (Bool-cases (p / 8 == i)) [
  | inl e ↦ rw e (xor_byte (x (p / 8)) (2 ^ (p % 8)) (b (p / 8)) (pow_byte p))
  | inr e ↦ rw e (b i)
]

pub bit_clr-IsBytes : (x : Bytes) (p : ℕ) → IsBytes x → IsBytes (bit_clr x p)
unfolding bit_clr
bit_clr-IsBytes x p b i = elim (Bool-cases (p / 8 == i)) [
  | inl e ↦ rw e (and_byte (x (p / 8)) _ (b (p / 8)))
  | inr e ↦ rw e (b i)
]

-- Taking a free block of a slab of the cache keeps its invariant.
pub take_color-IsCache :
    (k : Heap) (i s j : ℕ) (ss : List ℕ)
    → IsCache k i ss
    → Memᴰ s ((k.caches i).cache_pool ∷ ss)
    → j < (k.slabs s).color_count
    → bit_at (k.maps (k.slabs s).color_map) j ≡ false
    → IsCache (take_color i s j k).1 i ss
unfolding take_color
take_color-IsCache k i s j ss h a l f =
    let m = k.maps (k.slabs s).color_map in
    let r = h.slab s a in
    let fewer =
      free_blocks_taken m (bit_set m j) j (k.slabs s).color_count l f
        (bit_set_lem m j j ∙ rw (==_refl j, f) refl)
        (λ q n. bit_set_lem m j q ∙ rw (==_false j q n) (ground arith)) in
    let tf = total_bound (λ x. x.free_count) k.slabs s _ a in
    let tu = total_bound (λ x. x.using_count) k.slabs s _ a in
    changed-IsCache k i s _ _ _ ss h a (record {
      bytes = bit_set-IsBytes m j r.bytes;
      same_map = refl;
      free = omega (arith, r.free, fewer, tf, h.free, h.bound);
      all = omega (arith, r.all, r.free, fewer, tf, tu, h.free, h.using, h.bound);
      same_pool = refl;
      total_free = omega (arith, r.free, fewer, tf, h.free, h.bound);
      total_using = omega (arith, r.free, fewer, tf, tu, h.free, h.using, h.bound);
      bound = omega (arith, r.free, fewer, tf, h.free, h.bound);
    })

-- The block of a slab of cache i that an address is in.
abbrev pub block : ℕ → ℕ → ℕ → Heap → ℕ
block i s address k = (address + 2 ^ 32 - (k.slabs s).vaddress) % 2 ^ 32 / (k.caches i).size

-- Giving back a block in use of a slab of the cache keeps its invariant.
pub put_color-IsCache :
    (k : Heap) (i s address : ℕ) (ss : List ℕ)
    → IsCache k i ss
    → Memᴰ s ((k.caches i).cache_pool ∷ ss)
    → block i s address k < (k.slabs s).color_count
    → bit_at (k.maps (k.slabs s).color_map) (block i s address k) ≡ true
    → IsCache (put_color i s address k) i ss
unfolding put_color
put_color-IsCache k i s address ss h a l f =
    let m = k.maps (k.slabs s).color_map in
    let j = block i s address k in
    let r = h.slab s a in
    let more =
      free_blocks_taken (bit_not m j) m j (k.slabs s).color_count l
        (bit_not_lem m j j ∙ rw (==_refl j, f) refl) f
        (λ q n. sym (bit_not_lem m j q ∙ rw (==_false j q n) (kept (bit_at m q)))) in
    let tf = total_bound (λ x. x.free_count) k.slabs s _ a in
    let tu = total_bound (λ x. x.using_count) k.slabs s _ a in
    let fb = free_blocks_bound (bit_not m j) (k.slabs s).color_count in
    changed-IsCache k i s _ _ _ ss h a (record {
      bytes = bit_not-IsBytes m j r.bytes;
      same_map = refl;
      free = omega (arith, r.free, more, tf, h.free, h.bound, r.all, fb, tu, h.using);
      all = omega (arith, r.all, r.free, more, tf, tu, h.free, h.using, h.bound, fb);
      same_pool = refl;
      total_free = omega (arith, r.all, r.free, more, tf, tu, h.free, h.using, h.bound, fb);
      total_using = omega (arith, r.all, r.free, more, tf, tu, h.free, h.using, h.bound, fb);
      bound = omega (arith, r.all, r.free, more, tf, tu, h.free, h.using, h.bound, fb);
    })
  where
    kept : (c : Bool) → xor_bit c false ≡ c
    kept true = refl
    kept false = refl
