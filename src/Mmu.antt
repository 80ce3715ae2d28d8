-- ===== src/Mmu.antt =====
-- mm/mmu.c: the section descriptors of the first-level page table, and the mapping that the kernel
-- starts with. The table is the array of descriptors at its base; the switches of the MMU are
-- instructions of the coprocessor.
pub mod Map
use mine_os.Prelude.{
  ℕ, zero, suc, ◌+◌, ◌*◌, ◌/◌, ◌%◌, ◌^◌, ◌&&◌, Option, none, some, ltb, leb, ◌==◌, if◌then◌else◌,
}
use mine_os.Links.{update}

-- The fields of the descriptor from its low bits up, with the blank ones, which are 0.
pub record Section : Type 0 where
  pub kind : ℕ
  pub b : ℕ
  pub c : ℕ
  pub special : ℕ
  pub domain : ℕ
  pub blank1 : ℕ
  pub ap : ℕ
  pub blank0 : ℕ
  pub base_address : ℕ

-- What the callers choose of a descriptor.
pub record Access : Type 0 where
  pub ap : ℕ
  pub domain : ℕ
  pub c : ℕ
  pub b : ℕ

abbrev pub PageTable : Type 0
PageTable = ℕ → Section

-- MMU_SECTION
abbrev pub mmu_section : ℕ
mmu_section = 2

-- A field keeps the low bits of what it is given.
unfoldable pub section : ℕ → Access → Section
section physicaladdr access = record {
  kind = mmu_section;
  b = access.b % 2;
  c = access.c % 2;
  special = 1;
  domain = access.domain % 16;
  blank1 = 0;
  ap = access.ap % 4;
  blank0 = 0;
  base_address = physicaladdr / 2 ^ 20 % 2 ^ 12;
}

-- __set_section
unfoldable pub set_one_section : ℕ → ℕ → Access → PageTable → PageTable
set_one_section virtuladdr physicaladdr access t =
    update t (virtuladdr / 2 ^ 20) (section physicaladdr access)

-- The loop of set_section, at vaddr and paddr with n rounds left.
unfoldable pub set_sections : ℕ → ℕ → Access → ℕ → ℕ → ℕ → PageTable → Option PageTable
set_sections virtuladdr physicaladdr access zero vaddr paddr t = some t
set_sections virtuladdr physicaladdr access (suc n) vaddr paddr t =
    let rest =
      set_sections virtuladdr physicaladdr access n ((vaddr + 2 ^ 20) % 2 ^ 32)
        ((paddr + 2 ^ 20) % 2 ^ 32) (set_one_section vaddr paddr access t) in
    if leb virtuladdr vaddr && leb physicaladdr paddr then rest else none

-- `none` is a failed assertion.
unfoldable pub set_section : ℕ → ℕ → ℕ → Access → PageTable → Option PageTable
set_section virtuladdr physicaladdr count access t =
    if virtuladdr % 2 ^ 20 == 0 && (physicaladdr % 2 ^ 20 == 0 && ltb 0 count)
    then set_sections virtuladdr physicaladdr access count virtuladdr physicaladdr t
    else none

-- The arguments MMU_FULL_ACCESS, MMU_DOMAIN(0), MMU_CACHE_ENABLE, MMU_BUFFER_ENABLE.
abbrev pub cached : Access
cached = record { ap = 3; domain = 0; c = 1; b = 1 }

-- The same with MMU_CACHE_DISABLE and MMU_BUFFER_DISABLE.
abbrev pub uncached : Access
uncached = record { ap = 3; domain = 0; c = 0; b = 0 }

-- One call after the other.
abbrev pub after : Option PageTable → (PageTable → Option PageTable) → Option PageTable
after none f = none
after (some t) f = f t

unfoldable pub create_page_table : PageTable → Option PageTable
create_page_table t =
    after
      (after
        (after
          (after (set_section 0 0 1 cached t)
            (set_section 0x4800_0000 0x4800_0000 (0x1800_0000 / 2 ^ 20) uncached))
          (set_section 0x3000_0000 0x3000_0000 (0x400_0000 / 2 ^ 20) cached))
        (set_section 0x2000_0000 0x2000_0000 1 uncached))
      (set_section 0xfff0_0000 0x33f0_0000 1 cached)

-- The word that holds the bit fields.
abbrev pub word_of : Section → ℕ
word_of s =
    s.kind
    + s.b * 2 ^ 2
    + s.c * 2 ^ 3
    + s.special * 2 ^ 4
    + s.domain * 2 ^ 5
    + s.blank1 * 2 ^ 9
    + s.ap * 2 ^ 10
    + s.blank0 * 2 ^ 12
    + s.base_address * 2 ^ 20
