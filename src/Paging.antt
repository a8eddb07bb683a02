-- ===== src/Paging.antt =====
-- student-distrib/paging.c: the page directory and the two page tables, and the enabling of paging
-- by student-distrib/test_enable.S.
pub mod Translate
pub mod Map
pub mod Program
pub mod Video
pub mod Virtual
pub mod Store
mod Tests
use my_linux_os.Common.{
  ℕ, zero, suc, ◌+◌, ◌-◌, ◌*◌, ◌/◌, ◌%◌, ◌^◌, Bool, true, false, ◌==◌, if◌then◌else◌,
}

abbrev pub max_page_entries : ℕ
max_page_entries = 1024

abbrev pub bytes_to_align_to : ℕ
bytes_to_align_to = 4096

abbrev pub page_size_4mb : ℕ
page_size_4mb = 0x400000

abbrev pub addr_video : ℕ
addr_video = 0xb8000

abbrev pub kernel_location : ℕ
kernel_location = 0x400000

abbrev pub user_location : ℕ
user_location = 0x8000000

abbrev pub user_program_index : ℕ
user_program_index = 32

abbrev pub vidmap_index : ℕ
vidmap_index = 34

-- `KPAGE_SIZE` of syscall.h.
abbrev pub kpage_size : ℕ
kpage_size = 0x800000

-- `page_directory_entry`; the address field has 20 bits.
pub record DirectoryEntry : Type 0 where
  pub pde_present : ℕ
  pub pde_rw : ℕ
  pub pde_user : ℕ
  pub pde_wt : ℕ
  pub pde_dis_cache : ℕ
  pub pde_accessed : ℕ
  pub pde_reserved : ℕ
  pub pde_size : ℕ
  pub pde_global : ℕ
  pub pde_avalaible : ℕ
  pub pde_addr : ℕ

-- `page_table_entry`
pub record TableEntry : Type 0 where
  pub pte_present : ℕ
  pub pte_rw : ℕ
  pub pte_user : ℕ
  pub pte_wt : ℕ
  pub pte_dis_cache : ℕ
  pub pte_accessed : ℕ
  pub pte_dirty : ℕ
  pub pte_reserved : ℕ
  pub pte_global : ℕ
  pub pte_avalaible : ℕ
  pub pte_addr : ℕ

-- An array, by its index.
abbrev pub Array : Type 0 → Type 0
Array A = ℕ → A

unfoldable pub put : {A : Type 0} → Array A → ℕ → A → Array A
put arr i v j = if i == j then v else arr j

-- `for (i = ...; ...; i++) arr[i] = body(i, arr[i])` over `n` indices from `i` on.
unfoldable pub for_entries : {A : Type 0} → ℕ → ℕ → (ℕ → A → A) → Array A → Array A
for_entries zero i body arr = arr
for_entries (suc n) i body arr = for_entries n (i + 1) body (put arr i (body i (arr i)))

-- The tables, the addresses at which the linker puts them, and the two control registers.
pub record Paging : Type 0 where
  pub page_directory : Array DirectoryEntry
  pub page_table : Array TableEntry
  pub page_vidmap : Array TableEntry
  pub directory_at : ℕ
  pub table_at : ℕ
  pub vidmap_at : ℕ
  pub cr3 : ℕ
  pub enabled : Bool

-- `(uint32_t)address / BYTES_TO_ALIGN_TO`, stored in a field of 20 bits.
abbrev pub frame : ℕ → ℕ
frame a = a % 2 ^ 32 / bytes_to_align_to

-- The branches of the first loop of `initialize_paging`.
unfoldable pub init_branch : ℕ → ℕ → DirectoryEntry → DirectoryEntry
init_branch table i e =
    if i == 0
    then record e { pde_present = 1; pde_user = 0; pde_size = 0; pde_addr = frame table }
    else if i == 1
    then record e { pde_present = 1; pde_user = 0; pde_size = 1; pde_addr = frame kernel_location }
    else if i == user_program_index
    then record e { pde_present = 1; pde_user = 1; pde_size = 1; pde_addr = frame user_location }
    else record e { pde_present = 0; pde_user = 0; pde_size = 1 }

-- The body of the first loop of `initialize_paging`.
unfoldable pub init_directory_entry : ℕ → ℕ → DirectoryEntry → DirectoryEntry
unfolding init_branch
init_directory_entry table i e = record (init_branch table i e) {
  pde_rw = 1;
  pde_wt = 0;
  pde_dis_cache = 0;
  pde_accessed = 0;
  pde_reserved = 0;
  pde_avalaible = 0;
}

-- The body of the other two loops.
unfoldable pub init_table_entry : ℕ → TableEntry → TableEntry
init_table_entry i e = record {
  pte_present = 0;
  pte_rw = 1;
  pte_user = 0;
  pte_wt = 0;
  pte_dis_cache = 0;
  pte_accessed = 0;
  pte_dirty = 0;
  pte_reserved = 0;
  pte_global = 0;
  pte_avalaible = 0;
  pte_addr = i;
}

-- The stores to the page table behind its loop: the video page and the three behind it.
unfoldable pub map_video : Array TableEntry → Array TableEntry
unfolding put
map_video t =
    let v : ℕ = frame addr_video in
    let t1 = put t v (record (t v) { pte_present = 1; pte_addr = frame addr_video }) in
    let t2 = put t1 (v + 1) (record (t1 (v + 1)) { pte_present = 1 }) in
    let t3 = put t2 (v + 2) (record (t2 (v + 2)) { pte_present = 1 }) in
    put t3 (v + 3) (record (t3 (v + 3)) { pte_present = 1 })

-- `test_enable`: the directory's address goes to cr3, then 4 MB pages and paging are switched on.
unfoldable pub test_enable : ℕ → Paging → Paging
test_enable pass_in p = record p { cr3 = pass_in; enabled = true }

-- `initialize_paging`
unfoldable pub initialize_paging : Paging → Paging
unfolding test_enable
initialize_paging p =
    let p1 = record p {
      page_directory =
          for_entries max_page_entries 0 (init_directory_entry p.table_at) p.page_directory;
      page_table = map_video (for_entries max_page_entries 0 init_table_entry p.page_table);
    } in
    let p2 = test_enable p.directory_at p1 in
    record p2 { page_vidmap = for_entries max_page_entries 0 init_table_entry p2.page_vidmap }

-- `syscall_helper`: the program page of process `pid`.
unfoldable pub syscall_helper : ℕ → Paging → Paging
unfolding put
syscall_helper pid p = record p {
  page_directory =
      put p.page_directory user_program_index (record (p.page_directory user_program_index) {
        pde_present = 1;
        pde_user = 1;
        pde_size = 1;
        pde_addr = frame (pid * page_size_4mb + kpage_size);
      });
}

-- `syscall_vidmap_helper`
unfoldable pub syscall_vidmap_helper : Paging → Paging
unfolding put
syscall_vidmap_helper p = record p {
  page_directory = put p.page_directory vidmap_index (record (p.page_directory vidmap_index) {
    pde_present = 1;
    pde_user = 1;
    pde_size = 0;
    pde_addr = frame p.vidmap_at;
  });
  page_vidmap =
      put p.page_vidmap 0
        (record (p.page_vidmap 0) { pte_present = 1; pte_user = 1; pte_addr = frame addr_video });
}
