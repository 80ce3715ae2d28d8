-- ===== src/Memory/Slab/Padded.antt =====
-- mm/memory.c: slab_free, on slabs that count all of their blocks as in use from the start.
use mine_os.Prelude.{
  ℕ, ◌+◌, ◌*◌, ◌^◌, ◌<◌, ◌≤◌, ◌≡◌, if◌then◌else◌, List, [], ◌∷◌, Option, none, some,
}
use mine_os.Memory.Slab.{Slab, Heap}
use mine_os.Memory.Slab.Destroy.{holds_address}

-- The first slab of a list that has the address.
abbrev pub first_holding : (ℕ → Slab) → ℕ → List ℕ → Option ℕ
first_holding slabs address [] = none
first_holding slabs address (s ∷ ss) =
    if holds_address (slabs s) address then some s else first_holding slabs address ss

-- A slab that slab_create or slab_malloc made: using_count is the number of its blocks, and of
-- those that are taken besides.
pub record Padded (k : Heap) (s : ℕ) : Type 0 where
  pub counted : (k.slabs s).using_count + (k.slabs s).free_count ≡ 2 * (k.slabs s).color_count
  pub few : (k.slabs s).free_count ≤ (k.slabs s).color_count
  pub small : 2 * (k.slabs s).color_count < 2 ^ 32
