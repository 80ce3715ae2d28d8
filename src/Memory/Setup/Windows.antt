-- ===== src/Memory/Setup/Windows.antt =====
-- mm/memory.c: alloc_pages for several pages in the zone of the RAM.
use mine_os.Prelude.{
  ℕ, ◌+◌, ◌-◌, ◌*◌, ◌^◌, ◌<◌, ◌≤◌, ◌==◌, ◌≡◌, ◌∙◌, refl, ap, true, false, ◌||◌, arith, Bool-cases,
  Option-cases, inl, inr, ltb, leb, some, none, le→ltb_false, lt→ltb,
}
use mine_os.Memory.{
  Mms, Bytes, page_2m_num, set_zone, take_from, mark_pages, find_window, is_window_free, plus,
  minus, alloc_in_zone, alloc_in_zones, alloc_pages, select_zones, pg_ptable_maped, bits_per_long,
}
use mine_os.Memory.Bitmap.{bit_at, is_window_free_lem}
use mine_os.Memory.Search.{find_window_lem, find_window-none}
use mine_os.Memory.Setup.Ram.{
  IsRam, mark_pages-Marks, Filled, clear_in, clear_in-Filled, clear_in_le, is_inside,
}

-- The search finds a free window that is not behind one that is free.
find_before :
    (x : Bytes) (number n j p : ℕ)
    → is_window_free x number p ≡ true
    → j ≤ p
    → p < j + n
    → (c : ℕ) × (find_window x number n j ≡ some c)
      × (j ≤ c)
      × (c ≤ p)
      × (is_window_free x number c ≡ true)
find_before x number n j p f l h = elim (Option-cases (find_window x number n j)) [
  | inl e ↦ absurd (ground (arith, f, find_window-none x number n j e p l h))
  | inr (c, e) ↦
      let r = find_window_lem x number n j c e in
      elim (Bool-cases (ltb p c)) [
        | inl b ↦ absurd (ground (arith, f, r.3 p l (ground (arith, b))))
        | inr b ↦ (c, e, r.0, ground (arith, b), r.2)
      ]
]

-- The number pages from p on are free.
abbrev pub IsWindow : ℕ → ℕ → Mms → Type 0
IsWindow number p m =
    (384 ≤ p)
    × (p + number ≤ 416)
    × ((q : ℕ) → is_inside p number q ≡ true → bit_at m.bits_map q ≡ false)

window_free :
    (number p : ℕ) (m : Mms)
    → IsRam m
    → number < 32
    → IsWindow number p m
    → is_window_free m.bits_map number p ≡ true
window_free number p m r small w =
    (is_window_free_lem m.bits_map number p r.bytes (omega arith)).1
      (λ t l. w.2 (p + t) (ground arith))

free_window :
    (number c : ℕ) (m : Mms)
    → IsRam m
    → number < 32
    → is_window_free m.bits_map number c ≡ true
    → (q : ℕ) → is_inside c number q ≡ true
    → bit_at m.bits_map q ≡ false
free_window number c m r small f q e =
    ap (bit_at m.bits_map) {x = q} {y = c + (q - c)} (ground arith)
    ∙ (is_window_free_lem m.bits_map number c r.bytes (omega arith)).0 f (q - c) (ground arith)

marked-Filled :
    (number c : ℕ) (m m' : Mms)
    → ((q : ℕ) → is_inside c number q ≡ true → bit_at m.bits_map q ≡ false)
    → ((q : ℕ) → bit_at m'.bits_map q ≡ (bit_at m.bits_map q || is_inside c number q))
    → Filled c number m.bits_map m'.bits_map
marked-Filled number c m m' f e = record {
  clear = f;
  set = λ q i. e q ∙ rw (i, f q i) refl;
  same = λ q i. e q ∙ rw i (ground arith);
}

-- The memory after the pages from c on are taken.
abbrev pub taken_from : ℕ → ℕ → Mms → Mms
taken_from number c m =
    let m' = mark_pages pg_ptable_maped number c m in set_zone m' 0 (take_from number (m'.zones 0))

taken-IsRam :
    (number c : ℕ) (m : Mms)
    → IsRam m
    → IsWindow number c m
    → IsRam (taken_from number c m)
      × ((q : ℕ)
          → bit_at (taken_from number c m).bits_map q
            ≡ (bit_at m.bits_map q || is_inside c number q))
taken-IsRam number c m r w =
    let m' = mark_pages pg_ptable_maped number c m in
    let k = mark_pages-Marks pg_ptable_maped number c m r.placed r.bytes w.0 w.1 in
    let left =
      clear_in-Filled c number m.bits_map m'.bits_map 384 32
        (marked-Filled number c m m' w.2 k.bits) w.0 w.1 in
    let low = clear_in_le m.bits_map 384 32 in
    let zone : m'.zones 0 ≡ m.zones 0 = ap (λ z. z 0) k.zones in
    (
      record {
        bytes = k.bytes;
        placed = k.placed;
        start = ap (λ z. z.zone_start_address) zone ∙ r.start;
        end = ap (λ z. z.zone_end_address) zone ∙ r.end;
        free = ap (λ z. minus z.page_free_count number) zone ∙ omega (arith, r.free, left, low);
        using =
            ap (λ z. plus z.page_using_count number + minus z.page_free_count number) zone
            ∙ omega (arith, r.free, r.using, left, low);
        dma = k.dma ∙ r.dma;
        normal = k.normal ∙ r.normal;
      },
      k.bits,
    )

window_counted :
    (number p : ℕ) (m : Mms) → IsRam m → IsWindow number p m → number ≤ (m.zones 0).page_free_count
window_counted number p m r w =
    let k = mark_pages-Marks pg_ptable_maped number p m r.placed r.bytes w.0 w.1 in
    let left =
      clear_in-Filled p number m.bits_map (mark_pages pg_ptable_maped number p m).bits_map 384 32
        (marked-Filled number p m (mark_pages pg_ptable_maped number p m) w.2 k.bits) w.0 w.1 in
    omega (arith, left, r.free)

found_in :
    (number p : ℕ) (m : Mms)
    → IsRam m
    → number < 32
    → IsWindow number p m
    → (c : ℕ) × (find_window m.bits_map number
          ((m.zones 0).zone_end_address - page_2m_num (m.zones 0).zone_start_address)
          (page_2m_num (m.zones 0).zone_start_address)
        ≡ some c)
      × (c ≤ p)
      × IsWindow number c m
found_in number p m r small w =
    let (c, e, l, h, f) =
      find_before m.bits_map number (416 * 2 ^ 21 - 384) 384 p (window_free number p m r small w)
        w.0 (omega (arith, w.1)) in
    (c, rw (r.start, r.end) e, h, (l, omega (arith, h, w.1), free_window number c m r small f))

in_zone :
    (number p : ℕ) (m : Mms)
    → IsRam m
    → 0 < number
    → number < 32
    → IsWindow number p m
    → (c : ℕ) × (alloc_in_zone number pg_ptable_maped 0 m ≡ some (c, taken_from number c m))
      × (c ≤ p)
      × IsWindow number c m
unfolding alloc_in_zone
in_zone number p m r pos small w =
    let (c, e, l, v) = found_in number p m r small w in
    (
      c,
      rw (le→ltb_false (m.zones 0).page_free_count number (window_counted number p m r w), e) refl,
      l,
      v,
    )

one_zone :
    (number page_flags : ℕ) (m : Mms)
    → IsRam m
    → 0 < number
    → number < 32
    → alloc_pages 2 number page_flags m ≡ alloc_in_zones number pg_ptable_maped 1 0 m
unfolding alloc_pages select_zones
one_zone number page_flags m r pos small =
    let guard : (leb bits_per_long number || number == 0) ≡ false = ground arith in
    rw guard (
      ap (λ k. alloc_in_zones number pg_ptable_maped (m.zone_normal_index + 1 - k) k m) r.dma
      ∙ ap (λ k. alloc_in_zones number pg_ptable_maped (k + 1 - 0) 0 m) r.normal)

in_full_zone :
    (number : ℕ) (m : Mms)
    → (m.zones 0).page_free_count < number
    → alloc_in_zone number pg_ptable_maped 0 m ≡ none
unfolding alloc_in_zone
in_full_zone number m few = rw (lt→ltb (m.zones 0).page_free_count number few) refl

-- In the RAM, with whatever pages in use, alloc_pages for 1 to 31 pages finds a window of that many
-- free pages where there is one at p, and not one behind it; it marks the pages of that window and
-- no others, and the counters of the zone go on counting the free pages.
pub alloc_pages-IsRam :
    (number p page_flags : ℕ) (m : Mms)
    → IsRam m
    → 0 < number
    → number < 32
    → IsWindow number p m
    → (c : ℕ) × (m' : Mms) × (alloc_pages 2 number page_flags m ≡ some (c, m'))
      × (c ≤ p)
      × IsWindow number c m
      × ((q : ℕ) → bit_at m'.bits_map q ≡ (bit_at m.bits_map q || is_inside c number q))
      × IsRam m'
unfolding alloc_in_zones
alloc_pages-IsRam number p page_flags m r pos small w =
    let (c, e, l, v) = in_zone number p m r pos small w in
    let t = taken-IsRam number c m r v in
    (
      c,
      taken_from number c m,
      one_zone number page_flags m r pos small ∙ rw (alloc_in_zones, e) refl,
      l,
      v,
      t.1,
      t.0,
    )

-- Where fewer pages of the RAM are free than are asked for, alloc_pages gives NULL.
alloc_pages_short :
    (number page_flags : ℕ) (m : Mms)
    → IsRam m
    → 0 < number
    → number < 32
    → clear_in m.bits_map 384 32 < number
    → alloc_pages 2 number page_flags m ≡ none
unfolding alloc_in_zones
alloc_pages_short number page_flags m r pos small few =
    one_zone number page_flags m r pos small
    ∙ rw (alloc_in_zones, in_full_zone number m (omega (arith, few, r.free))) refl
