-- ===== src/Memory.antt =====
-- mm/memory.c: the physical pages of 2 MB, with the macros of include/lib.h on the bit map.
--
-- A page is its index in mms.pages_struct and a zone its index in mms.zones_struct; the bit map
-- is the bytes from mms.bits_map on. Counters are unsigned longs.
pub mod Bitmap
pub mod Search
pub mod Alloc
pub mod Free
pub mod Slab
pub mod Setup
use mine_os.Prelude.{
  ℕ, zero, suc, ◌+◌, ◌-◌, ◌*◌, ◌/◌, ◌%◌, ◌^◌, Bool, true, false, not, ◌&&◌, ◌||◌, Option, none,
  some, ltb, leb, ◌==◌, if◌then◌else◌, bit_and, bit_or, bit_xor,
}
use mine_os.Links.{update}

abbrev pub bits_per_long : ℕ
bits_per_long = 32

abbrev pub page_2m_shift : ℕ
page_2m_shift = 21

abbrev pub pg_ptable_maped : ℕ
pg_ptable_maped = 1

abbrev pub pg_shared : ℕ
pg_shared = 0x10

-- The bits of memory from an address on, in bytes.
abbrev pub Bytes : Type 0
Bytes = ℕ → ℕ

unfoldable pub bit_clr : Bytes → ℕ → Bytes
bit_clr x p = update x (p / 8) (bit_and (x (p / 8)) (bit_xor 0xff (2 ^ (p % 8))))

unfoldable pub bit_set : Bytes → ℕ → Bytes
bit_set x p = update x (p / 8) (bit_or (x (p / 8)) (2 ^ (p % 8)))

unfoldable pub bit_not : Bytes → ℕ → Bytes
bit_not x p = update x (p / 8) (bit_xor (x (p / 8)) (2 ^ (p % 8)))

-- The unsigned long at index i, least byte first.
unfoldable pub long_at : Bytes → ℕ → ℕ
long_at x i = x (4 * i) + 256 * (x (4 * i + 1) + 256 * (x (4 * i + 2) + 256 * x (4 * i + 3)))

pub record Page : Type 0 where
  pub zone : ℕ
  pub phy_address : ℕ
  pub attribute : ℕ
  pub reference_count : ℕ

pub record Zone : Type 0 where
  pub zone_start_address : ℕ
  pub zone_end_address : ℕ
  pub page_using_count : ℕ
  pub page_free_count : ℕ
  pub total_pages_link : ℕ

-- mms, with the three zone indexes. No page is the null pointer here.
pub record Mms : Type 0 where
  pub bits_map : Bytes
  pub pages : ℕ → Page
  pub zones : ℕ → Zone
  pub zones_size : ℕ
  pub zone_dma_index : ℕ
  pub zone_normal_index : ℕ
  pub zone_unmaped_index : ℕ

abbrev pub page_2m_num : ℕ → ℕ
page_2m_num addr = addr / 2 ^ page_2m_shift

-- x + n and x - n as unsigned longs.
abbrev pub plus : ℕ → ℕ → ℕ
plus x n = (x + n) % 2 ^ 32

abbrev pub minus : ℕ → ℕ → ℕ
minus x n = (x + 2 ^ 32 - n) % 2 ^ 32

abbrev pub set_page : Mms → ℕ → Page → Mms
set_page m i v = record m { pages = update m.pages i v }

abbrev pub set_zone : Mms → ℕ → Zone → Mms
set_zone m i v = record m { zones = update m.zones i v }

unfoldable pub page_init : Mms → ℕ → ℕ → Mms
page_init m page flags =
    let p = m.pages page in
    let p₁ = record p { attribute = bit_or p.attribute flags } in
    let z = m.zones p.zone in
    if p.reference_count == 0 || not (bit_and p₁.attribute pg_shared == 0)
    then set_zone (set_page m page (record p₁ { reference_count = plus p.reference_count 1 }))
        p.zone (record z { total_pages_link = plus z.total_pages_link 1 })
    else set_page m page p₁

unfoldable pub page_clean : Mms → ℕ → Mms
page_clean m page =
    let p = m.pages page in
    let p₁ = record p { reference_count = minus p.reference_count 1 } in
    let z = m.zones p.zone in
    let p₂ =
      (if p₁.reference_count == 0
        then record p₁ { attribute = bit_and p₁.attribute pg_ptable_maped }
        else p₁) in
    set_zone (set_page m page p₂) p.zone
      (record z { total_pages_link = minus z.total_pages_link 1 })

unfoldable pub get_page_attribute : Mms → ℕ → ℕ
get_page_attribute m page = (m.pages page).attribute

unfoldable pub set_page_attribute : Mms → ℕ → ℕ → Mms
set_page_attribute m page flags = set_page m page (record (m.pages page) { attribute = flags })

-- The test of one place in the bit map: the `number` bits from bit j on, read across two longs,
-- are clear. A shift by 32 (where j is a multiple of 32) gives 0, as on ARM.
unfoldable pub is_window_free : Bytes → ℕ → ℕ → Bool
is_window_free x number j =
    let i = j / bits_per_long in
    let num = 2 ^ number - 1 in
    let k = j % bits_per_long in
    let high = long_at x (i + (if k == 0 then 0 else 1)) * 2 ^ (bits_per_long - k) % 2 ^ 32 in
    bit_and (bit_or (long_at x i / 2 ^ k) high) num == 0

-- The loop over j, of which n rounds are left.
unfoldable pub find_window : Bytes → ℕ → ℕ → ℕ → Option ℕ
find_window x number zero j = none
find_window x number (suc n) j =
    let rest = find_window x number n (j + 1) in if is_window_free x number j then some j else rest

-- n pages from `page` on are marked as used.
unfoldable pub mark_pages : ℕ → ℕ → ℕ → Mms → Mms
mark_pages attribute zero page m = m
mark_pages attribute (suc n) page m =
    let p = m.pages page in
    mark_pages attribute n (page + 1)
      (record (set_page m page (record p { attribute = attribute })) {
        bits_map = bit_set m.bits_map (page_2m_num p.phy_address);
      })

abbrev pub take_from : ℕ → Zone → Zone
take_from number z = record z {
  page_using_count = plus z.page_using_count number;
  page_free_count = minus z.page_free_count number;
}

-- One zone: `none` where nothing is found. The bound of the loop is an address, as in the source.
unfoldable pub alloc_in_zone : ℕ → ℕ → ℕ → Mms → Option (ℕ × Mms)
alloc_in_zone number attribute i m =
    let z = m.zones i in
    let start = page_2m_num z.zone_start_address in
    if ltb z.page_free_count number
    then none
    else elim (find_window m.bits_map number (z.zone_end_address - start) start) [
      | none ↦ none
      | some j ↦
          let m' = mark_pages attribute number j m in
          some (j, set_zone m' i (take_from number (m'.zones i)))
    ]

-- The loop over the zones, of which n are left.
unfoldable pub alloc_in_zones : ℕ → ℕ → ℕ → ℕ → Mms → Option (ℕ × Mms)
alloc_in_zones number attribute zero i m = none
alloc_in_zones number attribute (suc n) i m =
    let rest = alloc_in_zones number attribute n (i + 1) m in
    elim (alloc_in_zone number attribute i m) [ none ↦ rest | some r ↦ some r ]

-- The switch: the first zone, the one after the last (zone_end + 1), and the attribute; `none` is
-- the default.
unfoldable pub select_zones : Mms → ℕ → Option (ℕ × ℕ × ℕ)
select_zones m zone_select =
    if zone_select == 1
    then some (0, m.zone_dma_index + 1, pg_ptable_maped)
    else (if zone_select == 2
        then some (m.zone_dma_index, m.zone_normal_index + 1, pg_ptable_maped)
        else (if zone_select == 4 then some (m.zone_unmaped_index, m.zones_size, 0) else none))

-- `none` is NULL; page_flags is not used.
unfoldable pub alloc_pages : ℕ → ℕ → ℕ → Mms → Option (ℕ × Mms)
alloc_pages zone_select number page_flags m =
    if leb bits_per_long number || number == 0 then none else elim (select_zones m zone_select) [
      | none ↦ none
      | some (zone_start, zone_bound, attribute) ↦
          alloc_in_zones number attribute (zone_bound - zone_start) zone_start m
    ]

abbrev pub give_back : Zone → Zone
give_back z = record z {
  page_using_count = minus z.page_using_count 1;
  page_free_count = plus z.page_free_count 1;
}

unfoldable pub release_pages : ℕ → ℕ → Mms → Mms
release_pages zero page m = m
release_pages (suc n) page m =
    let p = m.pages page in
    let m₁ = record m { bits_map = bit_clr m.bits_map (page_2m_num p.phy_address) } in
    let m₂ = set_zone m₁ p.zone (give_back (m.zones p.zone)) in
    release_pages n (page + 1) (set_page m₂ page (record p { attribute = 0 }))

unfoldable pub free_pages : ℕ → ℕ → Mms → Mms
free_pages page number m =
    if leb bits_per_long number || number == 0 then m else release_pages number page m
