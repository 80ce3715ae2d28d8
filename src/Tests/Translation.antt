-- ===== src/Tests/Translation.antt =====
-- The theorems on mm/mmu.c from a table of zeros.
use mine_os.Prelude.{ℕ, ◌-◌, ◌+◌, ◌≡◌, some, if◌then◌else◌, leb}
use mine_os.Mmu.{PageTable, create_page_table}
use mine_os.Mmu.Map.{translate, is_mapped, create_page_table_lem}

abbrev empty_table : PageTable
empty_table _ = record {
  kind = 0;
  b = 0;
  c = 0;
  special = 0;
  domain = 0;
  blank1 = 0;
  ap = 0;
  blank0 = 0;
  base_address = 0;
}

create_page_table_example :
    (t' : PageTable) × (create_page_table empty_table ≡ some t')
    × ((va : ℕ)
        → translate t' va ≡ (
            if is_mapped va
            then some (if leb 0xfff0_0000 va then va - 0xfff0_0000 + 0x33f0_0000 else va)
            else translate empty_table va))
create_page_table_example = create_page_table_lem empty_table
