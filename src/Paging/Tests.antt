-- ===== src/Paging/Tests.antt =====
-- Tables that hold nothing yet, with the page table at 64 KB.
use my_linux_os.Common.{◌+◌, ◌-◌, ◌/◌, ◌≢◌, ℕ, ◌≡◌, refl, true, false, some, arith}
use my_linux_os.Paging.{
  Paging, DirectoryEntry, TableEntry, initialize_paging, syscall_helper, syscall_vidmap_helper,
}
use my_linux_os.Paging.Translate.{translate}
use my_linux_os.Paging.Map.{within, initialize_paging_lem}
use my_linux_os.Paging.Video.{translate-syscall_vidmap_helper}
use my_linux_os.Paging.Program.{translate-syscall_helper, syscall_helper-disjoint}

abbrev no_directory_entry : DirectoryEntry
no_directory_entry = record {
  pde_present = 0;
  pde_rw = 0;
  pde_user = 0;
  pde_wt = 0;
  pde_dis_cache = 0;
  pde_accessed = 0;
  pde_reserved = 0;
  pde_size = 0;
  pde_global = 0;
  pde_avalaible = 0;
  pde_addr = 0;
}

abbrev no_table_entry : TableEntry
no_table_entry = record {
  pte_present = 0;
  pte_rw = 0;
  pte_user = 0;
  pte_wt = 0;
  pte_dis_cache = 0;
  pte_accessed = 0;
  pte_dirty = 0;
  pte_reserved = 0;
  pte_global = 0;
  pte_avalaible = 0;
  pte_addr = 0;
}

abbrev blank : Paging
blank = record {
  page_directory = λ i. no_directory_entry;
  page_table = λ i. no_table_entry;
  page_vidmap = λ i. no_table_entry;
  directory_at = 0xf000;
  table_at = 0x10000;
  vidmap_at = 0x11000;
  cr3 = 0;
  enabled = false;
}

initialize_paging_example : translate true (initialize_paging blank) 0x8048000 ≡ some 0x8048000
initialize_paging_example =
    initialize_paging_lem true blank 0x8048000 (omega arith) (omega arith) (omega arith)

program_byte : translate true (syscall_helper 1 blank) 0x8048000 ≡ some 0xc48000
program_byte = translate-syscall_helper true blank 1 0x8048000 (omega arith)

syscall_helper-disjoint_example : ◌≡◌ {A = ℕ} 1 1 × ◌≡◌ {A = ℕ} 0x8048000 0x8048000
syscall_helper-disjoint_example =
    syscall_helper-disjoint blank blank 1 1 0x8048000 0x8048000 0xc48000 (omega arith) (omega arith)
      refl refl program_byte program_byte

translate-syscall_vidmap_helper_example :
    (within 0x8800000 0x8801000 0x8800004 ≡ true
      → translate true (syscall_vidmap_helper blank) 0x8800004
        ≡ some (0xb8000 + (0x8800004 - 0x8800000)))
    × (within 0x8800000 0x8c00000 0x8800004 ≡ false
        → (blank.page_directory (0x8800004 / 4194304)).pde_addr ≢ blank.vidmap_at / 4096
        → translate true (syscall_vidmap_helper blank) 0x8800004 ≡ translate true blank 0x8800004)
translate-syscall_vidmap_helper_example =
    translate-syscall_vidmap_helper true blank 0x8800004 (omega arith) (omega arith)
