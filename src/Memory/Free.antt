-- ===== src/Memory/Free.antt =====
-- mm/memory.c: free_pages on the bit map.
use mine_os.Prelude.{
  ℕ, zero, suc, ◌+◌, ◌-◌, ◌<◌, ◌==◌, ◌≡◌, ◌∙◌, refl, ap, false, not, ◌&&◌, ◌||◌, arith, Bool-cases,
  inl, inr, ltb, leb,
}
use mine_os.Memory.{Mms, release_pages, page_2m_num, free_pages, bits_per_long}
use mine_os.Memory.Bitmap.{bit_at, bit_clr_lem}
use mine_os.Memory.Search.{IsNumbered, number_set}
use mine_os.Memory.Alloc.{Allocated}

-- Releasing n pages from `page` on clears their bits and no others.
release_pages_lem :
    (n page : ℕ) (m : Mms)
    → IsNumbered m
    → (q : ℕ)
    → bit_at (release_pages n page m).bits_map q
      ≡ (bit_at m.bits_map q && not (leb page q && ltb q (page + n)))
unfolding release_pages
release_pages_lem zero page m h q = ground arith
release_pages_lem (suc n) page m h q =
    let p = m.pages page in
    release_pages_lem n (page + 1) _ (number_set m page (record p { attribute = 0 }) refl h) q
    ∙ rw (bit_clr_lem m.bits_map (page_2m_num p.phy_address) q, h page) (ground arith)

-- Freeing what was allocated gives back the bit map, bit for bit.
free_pages-alloc_pages :
    (number j i : ℕ) (m m' : Mms)
    → 0 < number
    → number < 32
    → Allocated number j i m m'
    → (q : ℕ) → bit_at (free_pages j number m').bits_map q ≡ bit_at m.bits_map q
unfolding free_pages
free_pages-alloc_pages number j i m m' pos small a q =
    let guard : (leb bits_per_long number || number == 0) ≡ false = ground arith in
    rw guard (
      release_pages_lem number j m' a.numbered q
      ∙ rw (a.marked q) (elim (Bool-cases (leb j q && ltb q (j + number))) [
        | inl c ↦
            let off : bit_at m.bits_map q ≡ false =
              ap (bit_at m.bits_map) {x = q} {y = j + (q - j)} (ground arith)
              ∙ a.were_free (q - j) (ground arith) in
            rw (c, off)
        | inr c ↦ rw c (ground arith)
      ]))
