-- ===== src/Mmu/Examples.antt =====
-- kernel/mmu.c at a table of no entries.
use mirros.Base.{◌-◌, ◌/◌, ◌%◌, ◌<◌, ◌≤◌, ◌≡◌, ◌≢◌, ◌⊎◌, arith, [], ltb, if◌then◌else◌}
use mirros.Base.Int.{pos, einval}
use mirros.Mmu.{
  Words, tlb_attr_io_memory, build_tlb_table_entry, build_page_table_entry, clear_tlb_entry,
}
use mirros.Mmu.Sections.{entry_of, Mapped, build_tlb_table_entry-Mapped}
use mirros.Mmu.Tables.{PagesMapped, build_page_table_entry-PagesMapped, clear_tlb_entry_lem}
use mirros.Pages.{Zone, Page, Mm, va_to_pa, va_to_page_id, page_to_pa}

abbrev no_entries : Words
no_entries a = 0

-- The registers of the interrupt controller, at 0x4a000000 in the megabyte that is 0xe0100000 for
-- the kernel.
build_tlb_table_entry-Mapped_example :
    ((build_tlb_table_entry no_entries 3759144960 1241513984 1048576 tlb_attr_io_memory
        ≡ (no_entries, einval))
      × ((3759144960 % 1048576 ≢ 0) ⊎ (1048576 % 1048576 ≢ 0)))
    ⊎ ((words' : Words) × (build_tlb_table_entry no_entries 3759144960 1241513984 1048576
            tlb_attr_io_memory
          ≡ (words', pos 0))
        × Mapped no_entries 3759144960 1241513984 1048576 words')
build_tlb_table_entry-Mapped_example =
    build_tlb_table_entry-Mapped no_entries 3759144960 1241513984 1048576 tlb_attr_io_memory
      (λ e. absurd (omega (arith, e))) (omega arith) (omega arith)

abbrev empty_zone : Zone
empty_zone = record {
  sections = [];
  total_size = 0;
  free_size = 0;
  page_num = 0;
  free_pages = 0;
  bm_start = 0;
  bm_end = 0;
  bm_current = 0;
}

-- Every page stands at 0x30400000.
abbrev one_place : Page
one_place = record {
  phy_address = 809500672;
  flag = 1;
  free_base = 0;
  free_size = 0;
  count = 1;
  usage = 1;
}

abbrev small : Mm
small = record {
  zone = λ i. empty_zone;
  page = λ i. one_place;
  plist = record { next = λ a. a; pre = λ a. a };
  page_map = λ x. 0;
  kernel_start = 2147483648;
}

build_page_table_entry-PagesMapped_example :
    ((build_page_table_entry small no_entries 2148532224 2149580800 8192 1 ≡ (no_entries, einval))
      × ((8192 % 4096 ≢ 0) ⊎ (1048576 < 8192)))
    ⊎ ((8192 % 4096 ≡ 0)
        × (8192 ≤ 1048576)
        × ((words' : Words) × (build_page_table_entry small no_entries 2148532224 2149580800 8192 1
              ≡ (words', pos 0))
            × PagesMapped no_entries 2148532224 (va_to_pa small 2149580800) 8192 words'))
unfolding va_to_pa page_to_pa va_to_page_id
build_page_table_entry-PagesMapped_example =
    build_page_table_entry-PagesMapped small no_entries 2148532224 2149580800 8192 1 (omega arith)
      (omega arith) (omega arith)

clear_tlb_entry_lem_example :
    entry_of (clear_tlb_entry no_entries 0 2048) 5
    ≡ (if ltb (5 / 1048576) (2048 - (0 - 1) / 1048576) then 0 else entry_of no_entries 5)
clear_tlb_entry_lem_example = clear_tlb_entry_lem no_entries 0 2048 5 (omega arith)
