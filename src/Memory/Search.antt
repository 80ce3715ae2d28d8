-- ===== src/Memory/Search.antt =====
-- mm/memory.c: the search of alloc_pages and the marks that it makes in the bit map.
use mine_os.Prelude.{
  ℕ, zero, suc, ◌+◌, ◌<◌, ◌≤◌, ◌==◌, ◌≡◌, ◌∙◌, refl, sym, ap, subst, true, false, ◌&&◌, ◌||◌, arith,
  none, some, Bool-cases, inl, inr, ltb, leb, ==_iff, ==_refl,
}
use mine_os.Links.{update}
use mine_os.Links.Splice.{update_self, update_ne}
use mine_os.Memory.{
  Bytes, Mms, Page, bit_set, is_window_free, find_window, mark_pages, page_2m_num, set_page,
}
use mine_os.Memory.Bitmap.{bit_at, bit_set_lem}

-- The search finds the first place from j on whose window is free, or there is none in its range.
pub find_window_lem :
    (x : Bytes) (number n j p : ℕ)
    → find_window x number n j ≡ some p
    → (j ≤ p)
      × (p < j + n)
      × (is_window_free x number p ≡ true)
      × ((q : ℕ) → j ≤ q → q < p → is_window_free x number q ≡ false)
unfolding find_window
find_window_lem x number zero j p e = absurd (ground (arith, e))
find_window_lem x number (suc n) j p e = elim (Bool-cases (is_window_free x number j)) [
  | inl b ↦
      let at : j ≡ p = ground (arith, e, b) in
      (
        omega arith,
        omega arith,
        subst (λ q. is_window_free x number q ≡ true) at b,
        λ q l h. absurd (omega arith),
      )
  | inr b ↦
      let r = find_window_lem x number n (j + 1) p (ground (arith, e, b)) in
      (
        omega (arith, r.0),
        omega (arith, r.1),
        r.2,
        λ q l h. elim (Bool-cases (j == q)) [
          | inl c ↦ subst (λ q. is_window_free x number q ≡ false) ((==_iff j q).0 c) b
          | inr c ↦ r.3 q (ground arith) h
        ],
      )
]

-- Page q of mms describes the physical page q.
abbrev pub IsNumbered : Mms → Type 0
IsNumbered m = (q : ℕ) → page_2m_num (m.pages q).phy_address ≡ q

pub number_set :
    (m : Mms) (i : ℕ) (v : Page)
    → v.phy_address ≡ (m.pages i).phy_address
    → IsNumbered m
    → IsNumbered (set_page m i v)
number_set m i v e h q = elim (Bool-cases (i == q)) [
  | inl c ↦
      let at : i ≡ q = (==_iff i q).0 c in
      ap (λ (p : Page). page_2m_num p.phy_address)
        (ap (update m.pages i v) (sym at) ∙ update_self m.pages i v)
      ∙ ap page_2m_num e
      ∙ h i
      ∙ at
  | inr c ↦
      ap (λ (p : Page). page_2m_num p.phy_address)
        (update_ne m.pages i v q (λ at. ground (arith, at, ==_refl q)))
      ∙ h q
]

-- Marking n pages from `page` on sets their bits and no others, and leaves the zones.
pub mark_pages_lem :
    (attribute n page : ℕ) (m : Mms)
    → IsNumbered m
    → IsNumbered (mark_pages attribute n page m)
      × ((mark_pages attribute n page m).zones ≡ m.zones)
      × ((q : ℕ)
          → bit_at (mark_pages attribute n page m).bits_map q
            ≡ (bit_at m.bits_map q || (leb page q && ltb q (page + n))))
unfolding mark_pages
mark_pages_lem attribute zero page m h = (h, refl, λ q. ground arith)
mark_pages_lem attribute (suc n) page m h =
    let p = m.pages page in
    let r =
      mark_pages_lem attribute n (page + 1)
        (record (set_page m page (record p { attribute = attribute })) {
          bits_map = bit_set m.bits_map (page_2m_num p.phy_address);
        })
        (number_set m page (record p { attribute = attribute }) refl h) in
    (
      r.0,
      r.1,
      λ q. r.2 q ∙ rw (bit_set_lem m.bits_map (page_2m_num p.phy_address) q, h page) (ground arith),
    )

-- Where the search finds nothing, no window of its range is free.
pub find_window-none :
    (x : Bytes) (number n j : ℕ)
    → find_window x number n j ≡ none
    → (q : ℕ) → j ≤ q
    → q < j + n
    → is_window_free x number q ≡ false
unfolding find_window
find_window-none x number zero j e q l h = absurd (omega arith)
find_window-none x number (suc n) j e q l h = elim (Bool-cases (is_window_free x number j)) [
  | inl b ↦ absurd (ground (arith, e, b))
  | inr b ↦ elim (Bool-cases (j == q)) [
    | inl c ↦ subst (λ r. is_window_free x number r ≡ false) ((==_iff j q).0 c) b
    | inr c ↦
        find_window-none x number n (j + 1) (ground (arith, e, b)) q (ground arith) (omega arith)
  ]
]
