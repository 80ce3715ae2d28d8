-- ===== src/Memory/Alloc.antt =====
-- mm/memory.c: what alloc_pages returns, and what it does to the bit map and the counters.
use mine_os.Prelude.{
  ℕ, zero, suc, ◌+◌, ◌-◌, ◌<◌, ◌≤◌, ◌==◌, ◌≡◌, refl, sym, ap, subst, true, false, ◌&&◌, ◌||◌, arith,
  Option, none, some, Bool-cases, Option-cases, inl, inr, ltb, leb, ==_iff, ltb→lt, ◌⊎◌,
}
use mine_os.Links.{update}
use mine_os.Memory.{
  Mms, Zone, is_window_free, find_window, mark_pages, page_2m_num, set_zone, take_from,
  alloc_in_zone, alloc_in_zones, alloc_pages, select_zones, bits_per_long,
}
use mine_os.Memory.Bitmap.{bit_at, IsBytes, is_window_free_lem}
use mine_os.Memory.Search.{find_window_lem, find_window-none, IsNumbered, mark_pages_lem}

-- What an allocation of `number` pages from zone i does: the pages j, …, j + number - 1 were free,
-- they and no others are marked, the zone had enough pages free, and its counters follow.
pub record Allocated (number j i : ℕ) (m m' : Mms) : Type 0 where
  pub were_free : (t : ℕ) → t < number → bit_at m.bits_map (j + t) ≡ false
  pub marked :
      (q : ℕ) → bit_at m'.bits_map q ≡ (bit_at m.bits_map q || (leb j q && ltb q (j + number)))
  pub enough : number ≤ (m.zones i).page_free_count
  pub counted : m'.zones ≡ update m.zones i (take_from number (m.zones i))
  pub numbered : IsNumbered m'

-- Zone i has too few pages free, or no place of the range that the search covers is free.
abbrev pub Exhausted : ℕ → Mms → ℕ → Type 0
Exhausted number m i =
    let z = m.zones i in
    (z.page_free_count < number)
    ⊎ ((q : ℕ)
        → page_2m_num z.zone_start_address ≤ q
        → q
          < page_2m_num z.zone_start_address
            + (z.zone_end_address - page_2m_num z.zone_start_address)
        → is_window_free m.bits_map number q ≡ false)

abbrev pub marked_from : ℕ → ℕ → ℕ → ℕ → Mms → Mms
marked_from number attribute i j m =
    let m' = mark_pages attribute number j m in set_zone m' i (take_from number (m'.zones i))

pub marked_from-Allocated :
    (number attribute i j : ℕ) (m : Mms)
    → IsNumbered m
    → IsBytes m.bits_map
    → number ≤ 32
    → number ≤ (m.zones i).page_free_count
    → is_window_free m.bits_map number j ≡ true
    → Allocated number j i m (marked_from number attribute i j m)
marked_from-Allocated number attribute i j m h b k enough w =
    let r = mark_pages_lem attribute number j m h in
    record {
      were_free = (is_window_free_lem m.bits_map number j b k).0 w;
      marked = r.2;
      enough = enough;
      counted = ap (λ (zs : ℕ → Zone). update zs i (take_from number (zs i))) r.1;
      numbered = r.0;
    }

-- The result of a search: an allocation from one of the zones, or none of them can serve it.
abbrev pub Served : ℕ → Mms → (ℕ → Type 0) → Option (ℕ × Mms) → Type 0
Served number m InRange o =
    ((o ≡ none) × ((i : ℕ) → InRange i → Exhausted number m i))
    ⊎ ((i : ℕ) × (j : ℕ) × (m' : Mms) × InRange i × (o ≡ some (j, m')) × Allocated number j i m m')

alloc_in_zone_lem :
    (number attribute i : ℕ) (m : Mms)
    → IsNumbered m
    → IsBytes m.bits_map
    → number ≤ 32
    → Served number m (λ k. k ≡ i) (alloc_in_zone number attribute i m)
unfolding alloc_in_zone
alloc_in_zone_lem number attribute i m h b k =
    elim (Bool-cases (ltb (m.zones i).page_free_count number)) [
      | inl c ↦ inl (rw c, λ i' e. subst (Exhausted number m) (sym e) (inl (ltb→lt _ _ c)))
      | inr c ↦
          elim (Option-cases
            (find_window m.bits_map number ((m.zones i).zone_end_address - start) start)) [
              | inl f ↦ inl (
                rw (c, f),
                λ i' e.
                    subst (Exhausted number m) (sym e)
                      (inr (find_window-none m.bits_map number _ start f)),
              )
              | inr (p, f) ↦
                  let r = find_window_lem m.bits_map number _ start p f in
                  inr (
                    i,
                    p,
                    marked_from number attribute i p m,
                    refl,
                    rw (c, f),
                    marked_from-Allocated number attribute i p m h b k (ground arith) r.2,
                  )
            ]
    ]
  where
    start : ℕ
    start = page_2m_num (m.zones i).zone_start_address

alloc_in_zones_lem :
    (number attribute n i : ℕ) (m : Mms)
    → IsNumbered m
    → IsBytes m.bits_map
    → number ≤ 32
    → Served number m (λ k. (i ≤ k) × (k < i + n)) (alloc_in_zones number attribute n i m)
unfolding alloc_in_zones
alloc_in_zones_lem number attribute zero i m h b k =
    inl (refl, λ i' r. absurd (omega (arith, r.0, r.1)))
alloc_in_zones_lem number attribute (suc n) i m h b k =
    elim (alloc_in_zone_lem number attribute i m h b k) [
      | inr (i', j, m', e, done, a) ↦
          inr (i', j, m', (omega (arith, e), omega (arith, e)), rw (alloc_in_zones, done), a)
      | inl (none_here, ex) ↦ elim (alloc_in_zones_lem number attribute n (i + 1) m h b k) [
        | inr (i', j, m', r, done, a) ↦ inr (
          i',
          j,
          m',
          (omega (arith, r.0), omega (arith, r.1)),
          rw (alloc_in_zones, none_here, done),
          a,
        )
        | inl (none_later, exs) ↦ inl (
          rw (alloc_in_zones, none_here, none_later),
          λ i' r. elim (Bool-cases (i' == i)) [
            | inl c ↦ ex i' ((==_iff i' i).0 c)
            | inr c ↦ exs i' (ground (arith, r.0, r.1), ground (arith, r.0, r.1))
          ],
        )
      ]
    ]

-- In a memory where the address of every page is that of its number, and for 1 to 31 pages and a
-- selection of zones, alloc_pages either allocates that many consecutive free pages, found by the
-- search of a selected zone, or returns NULL and each of the selected zones has too few free pages
-- or no free place in its range.
alloc_pages_lem :
    (zone_select number page_flags zone_start zone_bound attribute : ℕ) (m : Mms)
    → IsNumbered m
    → IsBytes m.bits_map
    → 0 < number
    → number < 32
    → select_zones m zone_select ≡ some (zone_start, zone_bound, attribute)
    → Served number m
        (λ k. (zone_start ≤ k) × (k < zone_bound))
        (alloc_pages zone_select number page_flags m)
unfolding alloc_pages
alloc_pages_lem zone_select number flags lo hi attribute m h b pos small sel =
    let guard : (leb bits_per_long number || number == 0) ≡ false = ground arith in
    elim (alloc_in_zones_lem number attribute (hi - lo) lo m h b (omega arith)) [
      | inr (i, j, m', r, done, a) ↦
          inr (i, j, m', (r.0, omega (arith, r.1)), rw (guard, sel) done, a)
      | inl (nothing, ex) ↦ inl (rw (guard, sel) nothing, λ i r. ex i (r.0, omega (arith, r.1)))
    ]
