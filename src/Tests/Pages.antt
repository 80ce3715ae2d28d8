-- ===== src/Tests/Pages.antt =====
-- The theorems on mm/memory.c: one zone of 64 MB at 0x30000000, with the pages 384 to 386 in use,
-- and the memory that init_memory sets up.
use mine_os.Prelude.{
  ℕ, ◌+◌, ◌*◌, ◌^◌, ◌<◌, ◌≤◌, ◌≡◌, ◌∙◌, ◌||◌, refl, true, false, arith, if◌then◌else◌, ◌==◌, ◌↔◌,
  some,
}
use mine_os.Memory.{Mms, Bytes, alloc_pages, free_pages, is_window_free}
use mine_os.Memory.Bitmap.{bit_at, IsBytes, is_window_free_lem}
use mine_os.Memory.Search.{IsNumbered}
use mine_os.Memory.Setup.{MemoryMap, init_memory, end_of_struct}
use mine_os.Memory.Setup.Zones.{IsZoned, init_memory_lem}
use mine_os.Memory.Setup.Ram.{IsRam, IsZoned-IsRam, is_inside}
use mine_os.Memory.Setup.Windows.{IsWindow, alloc_pages-IsRam}
use mine_os.Memory.Setup.Release.{free_pages-alloc_pages-IsRam}

abbrev pub used : Bytes
used i = if i == 48 then 7 else 0

abbrev pub memory : Mms
memory = record {
  bits_map = used;
  pages = λ q. record { zone = 0; phy_address = q * 2 ^ 21; attribute = 0; reference_count = 0 };
  zones = λ i. record {
    zone_start_address = 0x3000_0000;
    zone_end_address = 0x3400_0000;
    page_using_count = 3;
    page_free_count = 29;
    total_pages_link = 3;
  };
  zones_size = 1;
  zone_dma_index = 0;
  zone_normal_index = 0;
  zone_unmaped_index = 0;
}

memory-IsNumbered : IsNumbered memory
memory-IsNumbered q = omega arith

used-IsBytes : IsBytes used
used-IsBytes i = ground arith

is_window_free_example :
    (is_window_free used 2 387 ≡ true) ↔ ((t : ℕ) → t < 2 → bit_at used (387 + t) ≡ false)
is_window_free_example = is_window_free_lem used 2 387 used-IsBytes (omega arith)

abbrev bios : MemoryMap
bios = record { e820 = λ i. record { address = 0; length = 0; type = 0 }; e820_length = 0 }

init_memory_example : IsZoned 385 (init_memory 0x3010_0000 bios memory).0
unfolding end_of_struct
init_memory_example = init_memory_lem 0x3010_0000 bios memory refl used-IsBytes

abbrev set_up : Mms
set_up = (init_memory 0x3010_0000 bios memory).0

set_up-IsZoned : IsZoned 385 set_up
unfolding end_of_struct
set_up-IsZoned = init_memory_lem 0x3010_0000 bios memory refl used-IsBytes

set_up-IsRam : IsRam set_up
set_up-IsRam = IsZoned-IsRam 385 set_up set_up-IsZoned (omega arith) (omega arith)

three_free : IsWindow 3 385 set_up
three_free = (
  omega arith,
  omega arith,
  λ q i. set_up-IsZoned.bits q (ground (arith, i)) (ground (arith, i)) ∙ ground (arith, i),
)

alloc_pages-IsRam_example :
    (c : ℕ) × (m' : Mms) × (alloc_pages 2 3 0 set_up ≡ some (c, m'))
    × (c ≤ 385)
    × IsWindow 3 c set_up
    × ((q : ℕ) → bit_at m'.bits_map q ≡ (bit_at set_up.bits_map q || is_inside c 3 q))
    × IsRam m'
alloc_pages-IsRam_example =
    alloc_pages-IsRam 3 385 0 set_up set_up-IsRam (omega arith) (omega arith) three_free

free_pages-alloc_pages-IsRam_example :
    (c : ℕ) × (m' : Mms) × (alloc_pages 2 3 0 set_up ≡ some (c, m'))
    × IsRam (free_pages c 3 m')
    × ((q : ℕ) → bit_at (free_pages c 3 m').bits_map q ≡ bit_at set_up.bits_map q)
    × (((free_pages c 3 m').zones 0).page_free_count ≡ (set_up.zones 0).page_free_count)
    × (((free_pages c 3 m').zones 0).page_using_count ≡ (set_up.zones 0).page_using_count)
free_pages-alloc_pages-IsRam_example =
    free_pages-alloc_pages-IsRam 3 385 0 set_up set_up-IsRam (omega arith) (omega arith) three_free
