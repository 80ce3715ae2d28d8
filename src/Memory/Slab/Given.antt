-- ===== src/Memory/Slab/Given.antt =====
-- mm/memory.c: what giving a block back changes, in kfree and slab_free.
use mine_os.Prelude.{
  ℕ, ◌+◌, ◌-◌, ◌/◌, ◌%◌, ◌^◌, ◌==◌, ◌≡◌, ◌≢◌, ◌∙◌, ap, Bool, not, arith, if◌then◌else◌, Bool-cases,
  inl, inr,
}
use mine_os.Bits.{xor_bit}
use mine_os.Links.Splice.{update_self, update_ne}
use mine_os.Memory.Bitmap.{bit_at, bit_not_lem}
use mine_os.Memory.Slab.{Slab, Cache, Heap}
use mine_os.Memory.Slab.Free.{put_color}

-- The bit of the block at `address` in the map of slab s of cache i is turned and no other is; the
-- slab and the cache count one block more as free and one fewer as used, as unsigned longs; the
-- other maps, slabs and caches are as they were.
pub record GivenBack (i s address : ℕ) (k k' : Heap) : Type 0 where
  pub turned :
      (q : ℕ)
      → bit_at (k'.maps (k.slabs s).color_map) q ≡ (
          if q == (address + 2 ^ 32 - (k.slabs s).vaddress) % 2 ^ 32 / (k.caches i).size
          then not (bit_at (k.maps (k.slabs s).color_map) q)
          else bit_at (k.maps (k.slabs s).color_map) q)
  pub free_count : (k'.slabs s).free_count ≡ ((k.slabs s).free_count + 1) % 2 ^ 32
  pub using_count : (k'.slabs s).using_count ≡ ((k.slabs s).using_count + 2 ^ 32 - 1) % 2 ^ 32
  pub total_free : (k'.caches i).total_free ≡ ((k.caches i).total_free + 1) % 2 ^ 32
  pub total_using : (k'.caches i).total_using ≡ ((k.caches i).total_using + 2 ^ 32 - 1) % 2 ^ 32
  pub maps : (m : ℕ) → (k.slabs s).color_map ≢ m → k'.maps m ≡ k.maps m
  pub slabs : (t : ℕ) → s ≢ t → k'.slabs t ≡ k.slabs t
  pub caches : (j : ℕ) → i ≢ j → k'.caches j ≡ k.caches j

turn : (b : Bool) (index q : ℕ) → xor_bit b (index == q) ≡ (if q == index then not b else b)
turn b index q = elim (Bool-cases (index == q)) [
  | inl e ↦ rw e (ground (arith, e))
  | inr e ↦ rw e (ground (arith, e))
]

pub put_color-GivenBack :
    (i s address : ℕ) (k : Heap) → GivenBack i s address k (put_color i s address k)
unfolding put_color
put_color-GivenBack i s address k = record {
  turned = λ q.
      ap (λ x. bit_at x q) (update_self k.maps (k.slabs s).color_map _)
      ∙ bit_not_lem _ _ q
      ∙ turn _ _ q;
  free_count = ap (λ (v : Slab). v.free_count) (update_self k.slabs s _);
  using_count = ap (λ (v : Slab). v.using_count) (update_self k.slabs s _);
  total_free = ap (λ (v : Cache). v.total_free) (update_self k.caches i _);
  total_using = ap (λ (v : Cache). v.total_using) (update_self k.caches i _);
  maps = λ m ne. update_ne k.maps (k.slabs s).color_map _ m ne;
  slabs = λ t ne. update_ne k.slabs s _ t ne;
  caches = λ j ne. update_ne k.caches i _ j ne;
}
