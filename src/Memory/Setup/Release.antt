-- ===== src/Memory/Setup/Release.antt =====
-- mm/memory.c: free_pages in the zone of the RAM.
use mine_os.Prelude.{
  ℕ, zero, suc, ◌+◌, ◌<◌, ◌≤◌, ◌==◌, ◌≡◌, ◌∙◌, refl, sym, ap, true, false, not, ◌&&◌, ◌||◌, arith,
  Bool-cases, inl, inr, leb, some, subst,
}
use mine_os.Memory.{
  Mms, page_2m_num, set_zone, set_page, give_back, release_pages, free_pages, bit_clr, alloc_pages,
  bits_per_long,
}
use mine_os.Memory.Bitmap.{bit_at, bit_clr_lem}
use mine_os.Memory.Slab.Blocks.{bit_clr-IsBytes}
use mine_os.Memory.Setup.Ram.{
  IsRam, Filled, clear_in-Filled, clear_in_le, clear_in_ext, is_inside, placed_set,
}
use mine_os.Memory.Setup.Windows.{IsWindow, alloc_pages-IsRam}

-- The memory after page c, of zone i, is given back.
abbrev released : ℕ → ℕ → Mms → Mms
released c i m =
    let p = m.pages c in
    let m₁ = record m { bits_map = bit_clr m.bits_map (page_2m_num p.phy_address) } in
    let m₂ = set_zone m₁ i (give_back (m.zones i)) in set_page m₂ c (record p { attribute = 0 })

released_bits :
    (c : ℕ) (m : Mms)
    → IsRam m
    → 384 ≤ c
    → c < 416
    → (q : ℕ) → bit_at (released c 0 m).bits_map q ≡ (bit_at m.bits_map q && not (c == q))
released_bits c m r l h q =
    let own : page_2m_num (m.pages c).phy_address ≡ c = omega (arith, (r.placed c l h).1) in
    bit_clr_lem m.bits_map _ q ∙ rw own refl

released-Filled :
    (c : ℕ) (m : Mms)
    → IsRam m
    → 384 ≤ c
    → c < 416
    → bit_at m.bits_map c ≡ true
    → Filled c 1 (released c 0 m).bits_map m.bits_map
released-Filled c m r l h b = record {
  clear = λ q i. released_bits c m r l h q ∙ ground (arith, i);
  set = λ q i. ap (bit_at m.bits_map) {x = q} {y = c} (ground (arith, i)) ∙ b;
  same = λ q i. sym (released_bits c m r l h q ∙ ground (arith, i));
}

released-IsRam :
    (c : ℕ) (m : Mms)
    → IsRam m
    → 384 ≤ c
    → c < 416
    → bit_at m.bits_map c ≡ true
    → IsRam (released c 0 m)
released-IsRam c m r l h b =
    let left =
      clear_in-Filled c 1 (released c 0 m).bits_map m.bits_map 384 32 (released-Filled c m r l h b)
        l (omega (arith, h)) in
    let low = clear_in_le (released c 0 m).bits_map 384 32 in
    record {
      bytes = bit_clr-IsBytes m.bits_map _ r.bytes;
      placed = placed_set m.pages c (record (m.pages c) { attribute = 0 }) refl refl r.placed;
      start = r.start;
      end = r.end;
      free = omega (arith, r.free, left, low);
      using = omega (arith, r.free, r.using, left, low);
      dma = r.dma;
      normal = r.normal;
    }

release_step :
    (n c : ℕ) (m : Mms)
    → IsRam m
    → 384 ≤ c
    → c < 416
    → release_pages (suc n) c m ≡ release_pages n (c + 1) (released c 0 m)
unfolding release_pages
release_step n c m r l h = ap (λ i. release_pages n (c + 1) (released c i m)) (r.placed c l h).0

-- Releasing n pages in use clears their bits and no others.
release_pages-IsRam :
    (n c : ℕ) (m : Mms)
    → IsRam m
    → 384 ≤ c
    → c + n ≤ 416
    → ((q : ℕ) → is_inside c n q ≡ true → bit_at m.bits_map q ≡ true)
    → IsRam (release_pages n c m)
      × ((q : ℕ)
          → bit_at (release_pages n c m).bits_map q
            ≡ (bit_at m.bits_map q && not (is_inside c n q)))
unfolding release_pages
release_pages-IsRam zero c m r l h s = (r, λ q. ground arith)
release_pages-IsRam (suc n) c m r l h s =
    let b = released_bits c m r l (omega arith) in
    let k =
      release_pages-IsRam n (c + 1) (released c 0 m)
        (released-IsRam c m r l (omega arith) (s c (ground arith))) (ground arith) (omega arith)
        (λ q i. b q ∙ rw (s q (ground (arith, i))) (ground (arith, i))) in
    let e = release_step n c m r l (omega arith) in
    subst
      (λ m'.
        IsRam m'
        × ((q : ℕ) → bit_at m'.bits_map q ≡ (bit_at m.bits_map q && not (is_inside c (suc n) q))))
      (sym e) (k.0, λ q. k.1 q ∙ rw (b q) (ground arith))

freed :
    (number c : ℕ) (m : Mms)
    → IsRam m
    → 0 < number
    → number < 32
    → 384 ≤ c
    → c + number ≤ 416
    → ((q : ℕ) → is_inside c number q ≡ true → bit_at m.bits_map q ≡ true)
    → IsRam (free_pages c number m)
      × ((q : ℕ)
          → bit_at (free_pages c number m).bits_map q
            ≡ (bit_at m.bits_map q && not (is_inside c number q)))
unfolding free_pages
freed number c m r pos small l h s =
    let guard : (leb bits_per_long number || number == 0) ≡ false = ground arith in
    rw guard (release_pages-IsRam number c m r l h s)

-- In the RAM, with whatever pages in use but a window of 1 to 31 free ones, alloc_pages gives pages
-- for that many, and freeing them restores every bit of the map, the two counters of the zone, and
-- that the counters count the free pages.
pub free_pages-alloc_pages-IsRam :
    (number p page_flags : ℕ) (m : Mms)
    → IsRam m
    → 0 < number
    → number < 32
    → IsWindow number p m
    → (c : ℕ) × (m' : Mms) × (alloc_pages 2 number page_flags m ≡ some (c, m'))
      × IsRam (free_pages c number m')
      × ((q : ℕ) → bit_at (free_pages c number m').bits_map q ≡ bit_at m.bits_map q)
      × (((free_pages c number m').zones 0).page_free_count ≡ (m.zones 0).page_free_count)
      × (((free_pages c number m').zones 0).page_using_count ≡ (m.zones 0).page_using_count)
free_pages-alloc_pages-IsRam number p page_flags m r pos small w =
    let (c, m', e, l, v, bits, r') = alloc_pages-IsRam number p page_flags m r pos small w in
    let (k, back) = freed number c m' r' pos small v.0 v.1 (λ q i. bits q ∙ rw i (ground arith)) in
    let same : (q : ℕ) → bit_at (free_pages c number m').bits_map q ≡ bit_at m.bits_map q = λ q.
      elim (Bool-cases (is_inside c number q)) [
        | inl i ↦ back q ∙ rw (i, v.2 q i) (ground arith)
        | inr i ↦ back q ∙ rw (i, bits q) (ground arith)
      ] in
    let free = clear_in_ext (free_pages c number m').bits_map m.bits_map 384 32 same in
    (
      c,
      m',
      e,
      k,
      same,
      omega (arith, k.free, r.free, free),
      omega (arith, k.free, k.using, r.free, r.using, free),
    )
