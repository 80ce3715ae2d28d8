-- ===== src/Memory/Setup/Zones.antt =====
-- mm/memory.c: the memory after init_memory.
use mine_os.Prelude.{
  ℕ, ◌*◌, ◌^◌, ◌<◌, ◌≤◌, ◌≡◌, ◌∙◌, refl, sym, ap, arith, true, leb, not, lt→ltb, subst,
  if◌then◌else◌, ◌+◌, ltb,
}
use mine_os.Links.Splice.{update_ne}
use mine_os.Memory.{Mms, Page, Zone, page_2m_num, page_init, set_zone}
use mine_os.Memory.Bitmap.{IsBytes, bit_at, bit_set_lem}
use mine_os.Memory.Slab.Init.{kernel_page}
use mine_os.Memory.Slab.Fresh.{filled_bits}
use mine_os.Memory.Setup.{
  MemoryMap, null_zone, zero_page, clear_structs, init_pages, init_zone, init_zones,
  init_first_page, end_of_struct, init_kernel_pages, init_memory, copy_map,
}
use mine_os.Memory.Setup.Pages.{
  init_kernel_pages_indexes, init_kernel_pages-IsBytes, init_pages-IsBytes, init_pages_bits,
  init_pages_size, init_pages_zones, init_pages_page, init_pages_other, page_init_kept,
  page_init_zone, init_kernel_pages_add, init_kernel_pages_set, init_kernel_pages_null,
}

-- The one zone, before a page of it is used.
abbrev ram_zone : Zone
ram_zone = record {
  zone_start_address = 384 * 2 ^ 21;
  zone_end_address = 416 * 2 ^ 21;
  page_using_count = 0;
  page_free_count = 32;
  total_pages_link = 0;
}

abbrev with_zone : Mms → Mms
with_zone m = record (set_zone (clear_structs (416 * 2 ^ 21) m) 0 ram_zone) { zones_size = 1 }

-- The memory before the pages of the kernel are marked.
abbrev zoned : Mms → Mms
zoned m = init_first_page (init_pages 32 0 0 (384 * 2 ^ 21) (with_zone m))

init_memory-zoned :
    (start_brk : ℕ) (map : MemoryMap) (m : Mms)
    → (init_memory start_brk map m).0
      ≡ init_kernel_pages (page_2m_num (end_of_struct start_brk (416 * 2 ^ 21) 1)) 1 (zoned m)
unfolding init_memory copy_map init_zones init_zone
init_memory-zoned start_brk map m =
    ap
      (λ size.
        init_kernel_pages (page_2m_num (end_of_struct start_brk (416 * 2 ^ 21) size)) 1 (zoned m))
      (init_pages_size 32 0 0 (384 * 2 ^ 21) (with_zone m))

zoned_bits : (m : Mms) (q : ℕ) → q < 416 → bit_at (zoned m).bits_map q ≡ not (leb 384 q)
zoned_bits m q h =
    init_pages_bits 32 0 0 384 (with_zone m) q (omega arith)
    ∙ rw (filled_bits 52 m.bits_map q (omega arith)) (ground arith)

zoned_low :
    (m : Mms) (q : ℕ)
    → 1 ≤ q
    → q < 384
    → (((zoned m).pages q).zone ≡ null_zone) × (((zoned m).pages q).phy_address ≡ 0)
zoned_low m q a b =
    let e : (zoned m).pages q ≡ zero_page =
      update_ne (init_pages 32 0 0 (384 * 2 ^ 21) (with_zone m)).pages 0 _ q
        (λ z. omega (arith, z, a))
      ∙ init_pages_other 32 0 0 384 (with_zone m) q (ground arith)
      ∙ rw (lt→ltb q 416 (omega arith)) refl in
    (ap (λ (p : Page). p.zone) e, ap (λ (p : Page). p.phy_address) e)

zoned_high :
    (m : Mms) (q : ℕ)
    → 384 ≤ q
    → q < 416
    → (((zoned m).pages q).zone ≡ 0) × (((zoned m).pages q).phy_address ≡ q * 2 ^ 21)
zoned_high m q a b =
    let e =
      update_ne (init_pages 32 0 0 (384 * 2 ^ 21) (with_zone m)).pages 0
        (record { zone = 0; phy_address = 0; attribute = kernel_page; reference_count = 1 }) q
        (λ z. omega (arith, z, a)) in
    let r = init_pages_page 32 0 0 384 (with_zone m) q (omega arith) (omega arith) (omega arith) in
    (ap (λ (p : Page). p.zone) e ∙ r.0, ap (λ (p : Page). p.phy_address) e ∙ r.1)

zoned_zone : (m : Mms) → (zoned m).zones 0 ≡ ram_zone
zoned_zone m = ap (λ (zs : ℕ → Zone). zs 0) (init_pages_zones 32 0 0 (384 * 2 ^ 21) (with_zone m))

filled-IsBytes : (m : Mms) → IsBytes m.bits_map → IsBytes (with_zone m).bits_map
filled-IsBytes m b i = filled (m.bits_map i) (b i)
  where
    filled : (x : ℕ) → x < 256 → (if ltb i 52 then 0xff else x) < 256
    filled x h = ground arith

-- The zone of the RAM, whose pages below c are in use and the others free.
pub record IsZoned (c : ℕ) (m : Mms) : Type 0 where
  pub bytes : IsBytes m.bits_map
  pub bits : (q : ℕ) → 0 < q → q < 416 → bit_at m.bits_map q ≡ not (leb c q)
  pub page :
      (q : ℕ) → 384 ≤ q → q < 416 → ((m.pages q).zone ≡ 0) × ((m.pages q).phy_address ≡ q * 2 ^ 21)
  pub start : (m.zones 0).zone_start_address ≡ 384 * 2 ^ 21
  pub end : (m.zones 0).zone_end_address ≡ 416 * 2 ^ 21
  pub using : 384 + (m.zones 0).page_using_count ≡ c
  pub free : c + (m.zones 0).page_free_count ≡ 416
  pub dma : m.zone_dma_index ≡ 0
  pub normal : m.zone_normal_index ≡ 0
  pub first : bit_at m.bits_map 0 ≡ true
  pub size : m.zones_size ≡ 1

-- Page 384 is marked, in a memory with the pages and the zone of init_memory.
mark_kernel :
    (m : Mms)
    → ((q : ℕ) → 0 < q → q < 416 → bit_at m.bits_map q ≡ not (leb 384 q))
    → ((q : ℕ)
        → 384 ≤ q
        → q < 416
        → ((m.pages q).zone ≡ 0) × ((m.pages q).phy_address ≡ q * 2 ^ 21))
    → m.zones 0 ≡ ram_zone
    → IsBytes m.bits_map
    → (m.zone_dma_index ≡ 0) × (m.zone_normal_index ≡ 0) × (m.zones_size ≡ 1)
    → bit_at m.bits_map 0 ≡ true
    → IsZoned 385 (init_kernel_pages 1 384 m)
unfolding init_kernel_pages
mark_kernel m bits page zone bytes indexes set =
    let m₁ = page_init m 384 kernel_page in
    let own = page 384 (omega arith) (omega arith) in
    let here = page_init_kept m 384 kernel_page 384 in
    let z : (m₁.pages 384).zone ≡ 0 = here.0 ∙ own.0 in
    let phy : (m₁.pages 384).phy_address ≡ 384 * 2 ^ 21 = here.1 ∙ own.1 in
    let field : (f : Zone → ℕ)
        → ((v : Zone) (t : ℕ) → f (record v { total_pages_link = t }) ≡ f v)
        → f (m₁.zones 0) ≡ f ram_zone =
      (λ f h. page_init_zone f m 384 kernel_page 0 h ∙ ap f zone) in
    let index = init_kernel_pages_indexes 1 384 m in
    record {
      bytes = init_kernel_pages-IsBytes 1 384 m bytes;
      dma = index.0 ∙ indexes.0;
      normal = index.1 ∙ indexes.1;
      first = init_kernel_pages_set 1 384 m 0 set;
      size = index.2 ∙ indexes.2;
      bits = λ q a b.
          bit_set_lem m₁.bits_map (page_2m_num (m₁.pages 384).phy_address) q
          ∙ rw (phy, here.2, bits q a b) (ground arith);
      page = λ q a b.
          let k = page_init_kept m 384 kernel_page q in
          let o = page q a b in (k.0 ∙ o.0, k.1 ∙ o.1);
      start = rw (z, field (λ x. x.zone_start_address) (λ v t. refl)) refl;
      end = rw (z, field (λ x. x.zone_end_address) (λ v t. refl)) refl;
      using = rw (z, field (λ x. x.page_using_count) (λ v t. refl)) refl;
      free = rw (z, field (λ x. x.page_free_count) (λ v t. refl)) refl;
    }

-- After init_memory, where its structures end in the first 2 MB of the RAM and the bytes of the bit
-- map are bytes, there is one zone, both the last DMA zone and the last normal one: the 64 MB from
-- 0x30000000 on. Of its 32 pages the first is in use and the others are free, in the bit map and in
-- the zone's counters, every one knows its zone and its address, and no page below the RAM is free.
pub init_memory_lem :
    (start_brk : ℕ) (map : MemoryMap) (m : Mms)
    → page_2m_num (end_of_struct start_brk (416 * 2 ^ 21) 1) ≡ 384
    → IsBytes m.bits_map
    → IsZoned 385 (init_memory start_brk map m).0
init_memory_lem start_brk map m e bytes =
    let low =
      init_kernel_pages_null 383 1 (zoned m) (λ q a b. zoned_low m q (omega arith) (omega arith)) in
    let index = init_kernel_pages_indexes 383 1 (zoned m) in
    subst (IsZoned 385)
      (sym (
        init_memory-zoned start_brk map m
        ∙ ap (λ n. init_kernel_pages n 1 (zoned m)) e
        ∙ init_kernel_pages_add 383 1 1 (zoned m)))
      (mark_kernel (init_kernel_pages 383 1 (zoned m))
        (λ q a b. low.0 q (λ z. omega (arith, z, a)) ∙ zoned_bits m q b)
        (λ q a b. ((low.2 q).0 ∙ (zoned_high m q a b).0, (low.2 q).1 ∙ (zoned_high m q a b).1))
        (low.1 0 (λ z. omega (arith, z)) ∙ zoned_zone m)
        (init_kernel_pages-IsBytes 383 1 (zoned m)
          (init_pages-IsBytes 32 0 0 (384 * 2 ^ 21) (with_zone m) (filled-IsBytes m bytes)))
        (index.0, index.1, index.2 ∙ init_pages_size 32 0 0 (384 * 2 ^ 21) (with_zone m))
        (init_kernel_pages_set 383 1 (zoned m) 0 (zoned_bits m 0 (omega arith))))
