-- ===== src/Memory/Slab/Fresh.antt =====
-- mm/memory.c: the map of a new slab, and where a slab of the small sizes stands in its page.
use mine_os.Prelude.{
  ℕ, zero, suc, ◌+◌, ◌-◌, ◌*◌, ◌/◌, ◌%◌, ◌^◌, ◌<◌, ◌≤◌, ◌≡◌, ◌∙◌, refl, true, false, not, ◌&&◌,
  arith, if◌then◌else◌, inl, inr, ltb, leb, ◌⊎◌,
}
use mine_os.Bits.{test_bit-mask, xor_bit}
use mine_os.Memory.{Bytes, bit_not}
use mine_os.Memory.Bitmap.{bit_at, IsBytes, bit_not_lem}
use mine_os.Memory.Slab.{clear_colors, filled_map, map_length, is_small, page_2m_size, sizeof_slab}
use mine_os.Memory.Slab.Invariant.{free_blocks}
use mine_os.Memory.Slab.Blocks.{bit_not-IsBytes}

clear_colors_bits :
    (n j : ℕ) (m : Bytes) (q : ℕ)
    → bit_at (clear_colors n j m) q ≡ xor_bit (bit_at m q) (leb j q && ltb q (j + n))
unfolding clear_colors
clear_colors_bits zero j m q = ground arith
clear_colors_bits (suc n) j m q =
    clear_colors_bits n (j + 1) (bit_not m j) q ∙ rw (bit_not_lem m j q) (ground arith)

pub filled_bits :
    (length : ℕ) (m : Bytes) (q : ℕ) → q < 8 * length → bit_at (filled_map length m) q ≡ true
filled_bits length m q h =
    rw (lt (q / 8) length (omega arith)) (test_bit-mask (q % 8) 8 ∙ lt (q % 8) 8 (omega arith))
  where
    lt : (a b : ℕ) → a < b → ltb a b ≡ true
    lt a b l = ground arith

-- The map of a new slab: its blocks are free, and the rest of the last long is not.
pub clear_colors_lem :
    (count : ℕ) (m : Bytes) (q : ℕ)
    → q < 8 * map_length count
    → bit_at (clear_colors count 0 (filled_map (map_length count) m)) q ≡ not (ltb q count)
clear_colors_lem count m q h =
    clear_colors_bits count 0 (filled_map (map_length count) m) q
    ∙ rw (filled_bits (map_length count) m q h) (ground arith)

clear_colors-IsBytes : (n j : ℕ) (m : Bytes) → IsBytes m → IsBytes (clear_colors n j m)
unfolding clear_colors
clear_colors-IsBytes zero j m b = b
clear_colors-IsBytes (suc n) j m b =
    clear_colors-IsBytes n (j + 1) (bit_not m j) (bit_not-IsBytes m j b)

pub fresh-IsBytes :
    (count : ℕ) (m : Bytes)
    → IsBytes m
    → IsBytes (clear_colors count 0 (filled_map (map_length count) m))
fresh-IsBytes count m b = clear_colors-IsBytes count 0 _ (λ i. filled (m i) i (b i))
  where
    filled : (x i : ℕ) → x < 256 → (if ltb i (map_length count) then 0xff else x) < 256
    filled x i l = ground arith

free_blocks_empty :
    (m : Bytes) (n : ℕ) → ((q : ℕ) → q < n → bit_at m q ≡ false) → free_blocks m n ≡ n
free_blocks_empty m zero h = refl
free_blocks_empty m (suc n) h =
    rw (h n (omega arith)) (omega (arith, free_blocks_empty m n (λ q l. h q (omega arith))))

pub free_blocks_fresh :
    (count : ℕ) (m : Bytes)
    → free_blocks (clear_colors count 0 (filled_map (map_length count) m)) count ≡ count
free_blocks_fresh count m =
    free_blocks_empty (clear_colors count 0 (filled_map (map_length count) m)) count
      (λ q l. clear_colors_lem count m q (omega arith) ∙ ground arith)

-- The numbers of create_small: the struct with its map, and the blocks.
abbrev pub structsize : ℕ → ℕ
structsize size = sizeof_slab + page_2m_size / size / 8

abbrev pub small_count : ℕ → ℕ
small_count size = (page_2m_size - structsize size) / size

small_cases :
    (size : ℕ)
    → is_small size ≡ true
    → (size ≡ 32) ⊎ ((size ≡ 64) ⊎ ((size ≡ 128) ⊎ ((size ≡ 256) ⊎ (size ≡ 512))))
small_cases size h = ground arith

-- For each of the small sizes, the blocks, the struct Slab and its map fit in the page of 2 MB,
-- one behind the other, and there is at least one block.
pub create_small_layout :
    (size : ℕ)
    → is_small size ≡ true
    → (size * small_count size + structsize size ≤ page_2m_size)
      × (sizeof_slab + map_length (small_count size) ≤ structsize size)
      × (0 < small_count size)
      × (small_count size < 2 ^ 16)
create_small_layout size h = elim (small_cases size h) [
  | inl e ↦ rw e (omega arith, omega arith, omega arith, omega arith)
  | inr (inl e) ↦ rw e (omega arith, omega arith, omega arith, omega arith)
  | inr (inr (inl e)) ↦ rw e (omega arith, omega arith, omega arith, omega arith)
  | inr (inr (inr (inl e))) ↦ rw e (omega arith, omega arith, omega arith, omega arith)
  | inr (inr (inr (inr e))) ↦ rw e (omega arith, omega arith, omega arith, omega arith)
]
