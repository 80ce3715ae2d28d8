-- ===== src/Memory/Setup.antt =====
-- mm/memory.c: init_memory, which fills the pages, the zones and the bit map.
--
-- A page that no zone has been given has the null pointer there; what is at that address is the
-- zone with the index null_zone. The totals that are only printed are left out, as are the
-- addresses of the kernel's sections but start_brk.
pub mod Pages
pub mod Zones
pub mod Handout
pub mod Ram
pub mod Windows
pub mod Release
use mine_os.Prelude.{
  ℕ, zero, suc, ◌+◌, ◌-◌, ◌*◌, ◌/◌, ◌%◌, ◌^◌, Bool, ◌||◌, ltb, leb, ◌==◌, if◌then◌else◌, bit_and,
  bit_xor,
}
use mine_os.Links.{update}
use mine_os.Memory.{
  Mms, Page, Zone, Bytes, plus, bit_set, bit_not, page_2m_num, page_init, set_page, set_zone,
  take_from,
}
use mine_os.Memory.Slab.{filled_map, page_2m_size}
use mine_os.Memory.Slab.Init.{page_2m_align, kernel_page}

pub record E820 : Type 0 where
  pub address : ℕ
  pub length : ℕ
  pub type : ℕ

pub record MemoryMap : Type 0 where
  pub e820 : ℕ → E820
  pub e820_length : ℕ

-- The map in the code: one piece of RAM, and an entry that ends it.
abbrev pub ram_map : ℕ → E820
ram_map i =
    if i == 0
    then record { address = 0x3000_0000; length = 0x0400_0000; type = 1 }
    else record { address = 0; length = 0; type = 0 }

-- The loop that copies the map, with n rounds left.
unfoldable pub copy_map : ℕ → ℕ → (ℕ → E820) → MemoryMap → MemoryMap
copy_map zero i p m = m
copy_map (suc n) i p m =
    let m' : MemoryMap = record { e820 = update m.e820 i (p i); e820_length = i } in
    let rest = copy_map n (i + 1) p m' in
    let next = p (i + 1) in
    if ltb 4 next.type || next.length == 0 || ltb next.type 1 then m' else rest

-- The macro ALIGN, also where a is not a power of 2.
abbrev pub align : ℕ → ℕ → ℕ
align x a = bit_and ((x + (a - 1)) % 2 ^ 32) (bit_xor 0xffff_ffff (a - 1))

abbrev pub ram_start : E820 → ℕ
ram_start e = page_2m_align e.address

abbrev pub ram_end : E820 → ℕ
ram_end e = (e.address + e.length) % 2 ^ 32 / page_2m_size * page_2m_size

-- The index of the zone at the null pointer, beyond those of the array.
abbrev pub null_zone : ℕ
null_zone = 2 ^ 32

abbrev pub zero_page : Page
zero_page = record { zone = null_zone; phy_address = 0; attribute = 0; reference_count = 0 }

abbrev pub zero_zone : Zone
zero_zone = record {
  zone_start_address = 0;
  zone_end_address = 0;
  page_using_count = 0;
  page_free_count = 0;
  total_pages_link = 0;
}

-- The three memsets, for a memory of `total` bytes; 5 zones.
abbrev pub clear_structs : ℕ → Mms → Mms
clear_structs total m = record m {
  bits_map = filled_map (align (align (total / 2 ^ 21) 8 / 8) 4) m.bits_map;
  pages = λ q. if ltb q (total / 2 ^ 21) then zero_page else m.pages q;
  zones = λ z. if ltb z 5 then zero_zone else m.zones z;
  zones_size = 0;
}

-- The pages of zone z, which starts at `start`: n of them from the j-th on.
unfoldable pub init_pages : ℕ → ℕ → ℕ → ℕ → Mms → Mms
init_pages zero j z start m = m
init_pages (suc n) j z start m =
    let phy = plus start (page_2m_size * j) in
    let p : Page = record { zone = z; phy_address = phy; attribute = 0; reference_count = 0 } in
    init_pages n (j + 1) z start (record (set_page m (page_2m_num start + j) p) {
      bits_map = bit_not m.bits_map (page_2m_num phy);
    })

-- One round of the loop over the map.
unfoldable pub init_zone : E820 → Mms → Mms
init_zone e m =
    let number = page_2m_num (ram_end e - ram_start e) in
    let z : Zone = record {
      zone_start_address = ram_start e;
      zone_end_address = ram_end e;
      page_using_count = 0;
      page_free_count = number;
      total_pages_link = 0;
    } in
    let m₁ = record (set_zone m m.zones_size z) { zones_size = m.zones_size + 1 } in
    if e.type == 1
    then (if leb (ram_end e) (ram_start e)
        then m
        else init_pages number 0 m.zones_size (ram_start e) m₁)
    else m

-- The n entries of the map from i on.
unfoldable pub init_zones : ℕ → ℕ → MemoryMap → Mms → Mms
init_zones zero i map m = m
init_zones (suc n) i map m = init_zones n (i + 1) map (init_zone (map.e820 i) m)

-- Page 0, and the zone indexes.
abbrev pub init_first_page : Mms → Mms
init_first_page m =
    record (set_page m 0
      (record { zone = 0; phy_address = 0; attribute = kernel_page; reference_count = 1 })) {
        zone_dma_index = 0;
        zone_normal_index = 0;
        zone_unmaped_index = 0;
      }

-- The address of mms.zones_struct, behind the bit map and the pages.
abbrev pub zones_struct : ℕ → ℕ → ℕ
zones_struct start_brk total =
    let bits_map = align start_brk 4096 in
    let bits_length = align (align (total / 2 ^ 21) 8 / 8) 4 in
    let pages_struct = align (bits_map + bits_length) 4095 in
    let pages_length = align (total / 2 ^ 21 * 20) 4 in align (pages_struct + pages_length) 4096

-- The end of the zones, with the blank behind them.
unfoldable pub end_of_struct : ℕ → ℕ → ℕ → ℕ
end_of_struct start_brk total zones_size =
    align (zones_struct start_brk total + align (zones_size * 40) 4 + 128) 4

-- The pages of the kernel: n of them from j on.
unfoldable pub init_kernel_pages : ℕ → ℕ → Mms → Mms
init_kernel_pages zero j m = m
init_kernel_pages (suc n) j m =
    let m₁ = page_init m j kernel_page in
    let p = m₁.pages j in
    let m₂ = record m₁ { bits_map = bit_set m₁.bits_map (page_2m_num p.phy_address) } in
    init_kernel_pages n (j + 1) (set_zone m₂ p.zone (take_from 1 (m₂.zones p.zone)))

-- The page structures and the end_of_struct.
unfoldable pub init_memory : ℕ → MemoryMap → Mms → Mms × ℕ
init_memory start_brk map m =
    let map₁ = copy_map 32 0 ram_map map in
    let last = map₁.e820 map₁.e820_length in
    let total = (last.address + last.length) % 2 ^ 32 in
    let m₁ = init_first_page (init_zones (map₁.e820_length + 1) 0 map₁ (clear_structs total m)) in
    let end = end_of_struct start_brk total m₁.zones_size in
    (init_kernel_pages (page_2m_num end) 1 m₁, end)
