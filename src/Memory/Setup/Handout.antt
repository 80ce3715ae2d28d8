-- ===== src/Memory/Setup/Handout.antt =====
-- mm/memory.c: alloc_pages in the memory that init_memory sets up.
use mine_os.Prelude.{
  ℕ, zero, suc, ◌+◌, ◌-◌, ◌*◌, ◌^◌, ◌<◌, ◌≤◌, ◌==◌, ◌≡◌, ◌∙◌, refl, ap, true, false, arith,
  Bool-cases, inl, inr, not, ==_iff, subst, none, some, le→ltb_false, lt→ltb,
}
use mine_os.Memory.{
  Mms, Bytes, page_2m_num, set_zone, take_from, mark_pages, find_window, is_window_free,
  alloc_in_zone, alloc_in_zones, alloc_pages, select_zones, pg_ptable_maped,
}
use mine_os.Memory.Bitmap.{IsBytes, bit_at, bit_set_lem, is_window_free_lem}
use mine_os.Memory.Slab.Blocks.{bit_set-IsBytes}
use mine_os.Memory.Setup.Zones.{IsZoned}

window_of_one : (x : Bytes) (j : ℕ) → IsBytes x → is_window_free x 1 j ≡ not (bit_at x j)
window_of_one x j b = elim (Bool-cases (bit_at x j)) [
  | inl e ↦ elim (Bool-cases (is_window_free x 1 j)) [
    | inl f ↦ absurd (
        ground (
          arith,
          e,
          ap (bit_at x) {x = j + 0} {y = j} (omega arith),
          (is_window_free_lem x 1 j b (omega arith)).0 f 0 (omega arith),
        ))
    | inr f ↦ rw (e, f) refl
  ]
  | inr e ↦ rw e (
      (is_window_free_lem x 1 j b (omega arith)).1
        (λ t l. ap (bit_at x) {x = j + t} {y = j} (omega arith) ∙ e))
]

-- The search for one page finds the first that is free.
find_first :
    (x : Bytes) (n j c : ℕ)
    → IsBytes x
    → j ≤ c
    → c < j + n
    → ((q : ℕ) → j ≤ q → q < c → bit_at x q ≡ true)
    → bit_at x c ≡ false
    → find_window x 1 n j ≡ some c
unfolding find_window
find_first x zero j c b l h s f = absurd (omega arith)
find_first x (suc n) j c b l h s f = elim (Bool-cases (j == c)) [
  | inl e ↦ let at : j ≡ c = (==_iff j c).0 e in rw (window_of_one x j b, at, f) refl
  | inr e ↦
      rw (window_of_one x j b, s j (omega arith) (ground arith))
        (find_first x n (j + 1) c b (ground arith) (omega arith) (λ q a d. s q (omega arith) d) f)
]

-- The memory after page c is taken.
abbrev pub handed : ℕ → Mms → Mms
handed c m = let m' = mark_pages 1 1 c m in set_zone m' 0 (take_from 1 (m'.zones 0))

handed-IsZoned : (c : ℕ) (m : Mms) → IsZoned c m → 384 < c → c < 416 → IsZoned (c + 1) (handed c m)
unfolding mark_pages
handed-IsZoned c m z l h =
    let own : page_2m_num (m.pages c).phy_address ≡ c =
      omega (arith, (z.page c (omega arith) h).1) in
    record {
      bytes = bit_set-IsBytes m.bits_map _ z.bytes;
      bits = λ q a b. bit_set_lem m.bits_map _ q ∙ rw (own, z.bits q a b) (ground arith);
      page = λ q a b. elim (Bool-cases (c == q)) [
        | inl e ↦ rw e (
            subst (λ x. ((m.pages c).zone ≡ 0) × ((m.pages c).phy_address ≡ x * 2 ^ 21))
              ((==_iff c q).0 e) (z.page c (omega arith) h))
        | inr e ↦ rw e (z.page q a b)
      ];
      start = z.start;
      end = z.end;
      using = omega (arith, z.using, h);
      free = omega (arith, z.free, h);
      dma = z.dma;
      normal = z.normal;
      first = bit_set_lem m.bits_map _ 0 ∙ rw z.first refl;
      size = z.size;
    }

handed_first :
    (c : ℕ) (m : Mms)
    → IsZoned c m
    → 384 < c
    → c < 416
    → find_window m.bits_map 1
        ((m.zones 0).zone_end_address - page_2m_num (m.zones 0).zone_start_address)
        (page_2m_num (m.zones 0).zone_start_address)
      ≡ some c
handed_first c m z l h =
    rw (z.start, z.end)
      (find_first m.bits_map (416 * 2 ^ 21 - 384) 384 c z.bytes (omega arith) (omega arith)
        (λ q a d. z.bits q (omega arith) (omega arith) ∙ ground arith)
        (z.bits c (omega arith) h ∙ ground arith))

alloc_in_zone_first :
    (c : ℕ) (m : Mms)
    → IsZoned c m
    → 384 < c
    → c < 416
    → alloc_in_zone 1 pg_ptable_maped 0 m ≡ some (c, handed c m)
unfolding alloc_in_zone
alloc_in_zone_first c m z l h =
    rw (le→ltb_false (m.zones 0).page_free_count 1 (omega (arith, z.free)), handed_first c m z l h)
      refl

alloc_in_zone_full :
    (c : ℕ) (m : Mms) → IsZoned c m → c ≡ 416 → alloc_in_zone 1 pg_ptable_maped 0 m ≡ none
unfolding alloc_in_zone
alloc_in_zone_full c m z e = rw (lt→ltb (m.zones 0).page_free_count 1 (omega (arith, z.free))) refl

one_zone :
    (c page_flags : ℕ) (m : Mms)
    → IsZoned c m
    → alloc_pages 2 1 page_flags m ≡ alloc_in_zones 1 pg_ptable_maped 1 0 m
unfolding alloc_pages select_zones
one_zone c page_flags m z =
    ap (λ k. alloc_in_zones 1 pg_ptable_maped (m.zone_normal_index + 1 - k) k m) z.dma
    ∙ ap (λ k. alloc_in_zones 1 pg_ptable_maped (k + 1 - 0) 0 m) z.normal

one_zone_first :
    (c : ℕ) (m : Mms)
    → IsZoned c m
    → 384 < c
    → c < 416
    → alloc_in_zones 1 pg_ptable_maped 1 0 m ≡ some (c, handed c m)
unfolding alloc_in_zones
one_zone_first c m z l h = rw (alloc_in_zones, alloc_in_zone_first c m z l h) refl

one_zone_full :
    (c : ℕ) (m : Mms) → IsZoned c m → c ≡ 416 → alloc_in_zones 1 pg_ptable_maped 1 0 m ≡ none
unfolding alloc_in_zones
one_zone_full c m z e = rw (alloc_in_zones, alloc_in_zone_full c m z e) refl

-- From the memory that init_memory leaves on, alloc_pages for one page gives the pages of the RAM
-- one after the other: the first free one each time, as long as there is one, and then NULL.
alloc_pages-IsZoned :
    (c page_flags : ℕ) (m : Mms)
    → IsZoned c m
    → 384 < c
    → (c < 416 → (m' : Mms) × (alloc_pages 2 1 page_flags m ≡ some (c, m')) × IsZoned (c + 1) m')
      × (c ≡ 416 → alloc_pages 2 1 page_flags m ≡ none)
alloc_pages-IsZoned c page_flags m z l = (
  λ h. (handed c m, one_zone c page_flags m z ∙ one_zone_first c m z l h, handed-IsZoned c m z l h),
  λ e. one_zone c page_flags m z ∙ one_zone_full c m z e,
)
