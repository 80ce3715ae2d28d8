-- ===== src/Memory/Setup/Ram.antt =====
-- mm/memory.c: the zone of the RAM with any of its pages in use, and the marks in its bit map.
use mine_os.Prelude.{
  ℕ, zero, suc, ◌+◌, ◌-◌, ◌*◌, ◌^◌, ◌<◌, ◌≤◌, ◌==◌, ◌≡◌, ◌∙◌, refl, ap, Bool, true, false, ◌&&◌,
  ◌||◌, arith, Bool-cases, inl, inr, ltb, leb, if◌then◌else◌, ==_iff, min,
}
use mine_os.Links.{update}
use mine_os.Memory.{Mms, Page, Bytes, page_2m_num, mark_pages, bit_set, set_page}
use mine_os.Memory.Bitmap.{IsBytes, bit_at, bit_set_lem}
use mine_os.Memory.Slab.Blocks.{bit_set-IsBytes}
use mine_os.Memory.Setup.Zones.{IsZoned}

-- The number of clear bits among the n from j on.
pub clear_in : Bytes → ℕ → ℕ → ℕ
clear_in x j zero = 0
clear_in x j (suc n) = (if bit_at x j then 0 else 1) + clear_in x (j + 1) n

-- q is one of the w places from c on.
abbrev pub is_inside : ℕ → ℕ → ℕ → Bool
is_inside c w q = leb c q && ltb q (c + w)

-- How many of the n places from j on are among the w from c on.
inside : ℕ → ℕ → ℕ → ℕ → ℕ
inside c w j zero = 0
inside c w j (suc n) = (if is_inside c w j then 1 else 0) + inside c w (j + 1) n

inside_lem : (c w j n : ℕ) → inside c w j n ≡ min (c + w) (j + n) - (if ltb c j then j else c)
unfolding inside
inside_lem c w j zero = ground arith
inside_lem c w j (suc n) = ground (arith, inside_lem c w (j + 1) n)

-- The two maps differ in the window alone, which is clear in x and set in y.
pub record Filled (c w : ℕ) (x y : Bytes) : Type 0 where
  pub clear : (q : ℕ) → is_inside c w q ≡ true → bit_at x q ≡ false
  pub set : (q : ℕ) → is_inside c w q ≡ true → bit_at y q ≡ true
  pub same : (q : ℕ) → is_inside c w q ≡ false → bit_at y q ≡ bit_at x q

clear_step :
    (c w : ℕ) (x y : Bytes) (j n : ℕ)
    → Filled c w x y
    → clear_in y j n + inside c w j n ≡ clear_in x j n
unfolding clear_in inside
clear_step c w x y j zero f = omega arith
clear_step c w x y j (suc n) f = elim (Bool-cases (is_inside c w j)) [
  | inl e ↦ rw (e, f.clear j e, f.set j e) (omega (arith, clear_step c w x y (j + 1) n f))
  | inr e ↦ rw (e, f.same j e) (omega (arith, clear_step c w x y (j + 1) n f))
]

pub clear_in-Filled :
    (c w : ℕ) (x y : Bytes) (j n : ℕ)
    → Filled c w x y
    → j ≤ c
    → c + w ≤ j + n
    → clear_in y j n + w ≡ clear_in x j n
clear_in-Filled c w x y j n f l h =
    ap (λ k. clear_in y j n + k) {x = w} {y = inside c w j n} (ground (arith, inside_lem c w j n))
    ∙ clear_step c w x y j n f

pub clear_in_le : (x : Bytes) (j n : ℕ) → clear_in x j n ≤ n
unfolding clear_in
clear_in_le x j zero = omega arith
clear_in_le x j (suc n) = ground (arith, clear_in_le x (j + 1) n)

pub clear_in_ext :
    (x y : Bytes) (j n : ℕ) → ((q : ℕ) → bit_at x q ≡ bit_at y q) → clear_in x j n ≡ clear_in y j n
unfolding clear_in
clear_in_ext x y j zero e = refl
clear_in_ext x y j (suc n) e = rw (e j, clear_in_ext x y (j + 1) n e) refl

-- The pages of the RAM know their zone and their address.
abbrev pub IsPlaced : (ℕ → Page) → Type 0
IsPlaced pages =
    (q : ℕ) → 384 ≤ q → q < 416 → ((pages q).zone ≡ 0) × ((pages q).phy_address ≡ q * 2 ^ 21)

-- The one zone, whose counters count the clear bits.
pub record IsRam (m : Mms) : Type 0 where
  pub bytes : IsBytes m.bits_map
  pub placed : IsPlaced m.pages
  pub start : (m.zones 0).zone_start_address ≡ 384 * 2 ^ 21
  pub end : (m.zones 0).zone_end_address ≡ 416 * 2 ^ 21
  pub free : (m.zones 0).page_free_count ≡ clear_in m.bits_map 384 32
  pub using : (m.zones 0).page_using_count + (m.zones 0).page_free_count ≡ 32
  pub dma : m.zone_dma_index ≡ 0
  pub normal : m.zone_normal_index ≡ 0

pub placed_set :
    (pages : ℕ → Page) (i : ℕ) (v : Page)
    → v.zone ≡ (pages i).zone
    → v.phy_address ≡ (pages i).phy_address
    → IsPlaced pages
    → IsPlaced (update pages i v)
placed_set pages i v e f p q a b = elim (Bool-cases (i == q)) [
  | inl c ↦
      let at : i ≡ q = (==_iff i q).0 c in
      let own = p i (omega (arith, at)) (omega (arith, at)) in
      rw c (e ∙ own.0, f ∙ own.1 ∙ ap (λ k. k * 2 ^ 21) at)
  | inr c ↦ rw c (p q a b)
]

-- What marking the n pages from c on leaves.
pub record Marks (n c : ℕ) (m m' : Mms) : Type 0 where
  pub bits : (q : ℕ) → bit_at m'.bits_map q ≡ (bit_at m.bits_map q || is_inside c n q)
  pub bytes : IsBytes m'.bits_map
  pub placed : IsPlaced m'.pages
  pub zones : m'.zones ≡ m.zones
  pub dma : m'.zone_dma_index ≡ m.zone_dma_index
  pub normal : m'.zone_normal_index ≡ m.zone_normal_index

pub mark_pages-Marks :
    (attribute n c : ℕ) (m : Mms)
    → IsPlaced m.pages
    → IsBytes m.bits_map
    → 384 ≤ c
    → c + n ≤ 416
    → Marks n c m (mark_pages attribute n c m)
unfolding mark_pages
mark_pages-Marks attribute zero c m p b l h = record {
  bits = λ q. ground arith;
  bytes = b;
  placed = p;
  zones = refl;
  dma = refl;
  normal = refl;
}
mark_pages-Marks attribute (suc n) c m p b l h =
    let v = m.pages c in
    let m₁ = record (set_page m c (record v { attribute = attribute })) {
      bits_map = bit_set m.bits_map (page_2m_num v.phy_address);
    } in
    let own : page_2m_num v.phy_address ≡ c = omega (arith, (p c l (omega arith)).1) in
    let r =
      mark_pages-Marks attribute n (c + 1) m₁
        (placed_set m.pages c (record v { attribute = attribute }) refl refl p)
        (bit_set-IsBytes m.bits_map (page_2m_num v.phy_address) b) (omega arith) (omega arith) in
    record {
      bits = λ q.
          r.bits q ∙ rw (bit_set_lem m.bits_map (page_2m_num v.phy_address) q, own) (ground arith);
      bytes = r.bytes;
      placed = r.placed;
      zones = r.zones;
      dma = r.dma;
      normal = r.normal;
    }

zoned_clear :
    (c : ℕ) (m : Mms) (j n : ℕ)
    → IsZoned c m
    → 0 < j
    → j + n ≤ 416
    → clear_in m.bits_map j n ≡ j + n - (if ltb c j then j else c)
unfolding clear_in
zoned_clear c m j zero z l h = ground arith
zoned_clear c m j (suc n) z l h =
    rw (z.bits j l (omega arith))
      (ground (arith, zoned_clear c m (j + 1) n z (omega arith) (omega arith)))

pub IsZoned-IsRam : (c : ℕ) (m : Mms) → IsZoned c m → 384 < c → c ≤ 416 → IsRam m
IsZoned-IsRam c m z l h = record {
  bytes = z.bytes;
  placed = z.page;
  start = z.start;
  end = z.end;
  free = ground (arith, z.free, zoned_clear c m 384 32 z (omega arith) (omega arith));
  using = omega (arith, z.using, z.free);
  dma = z.dma;
  normal = z.normal;
}
