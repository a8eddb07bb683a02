-- ===== src/Paging/Translate.antt =====
-- How the processor reads the tables (Intel's manual, 32-bit paging with 4 MB pages): the physical
-- address of a virtual one, or `none` for a page fault.
use my_linux_os.Common.{
  ℕ, ◌+◌, ◌*◌, ◌/◌, ◌%◌, Bool, ◌&&◌, ◌||◌, not, ◌==◌, Option, none, some, if◌then◌else◌,
}
use my_linux_os.Paging.{Paging, TableEntry, Array}

-- The table at a frame: one of the two that the kernel has.
abbrev pub table_of : Paging → ℕ → Option (Array TableEntry)
table_of p f =
    if f == p.table_at / 4096
    then some p.page_table
    else if f == p.vidmap_at / 4096
    then some p.page_vidmap
    else none

-- May code run at this level use an entry with that `user` bit? The kernel may use all.
abbrev pub allowed : Bool → ℕ → Bool
allowed user bit = not user || bit == 1

-- The 4 KB page of `v` in a table.
unfoldable pub walk_table : Bool → ℕ → Option (Array TableEntry) → Option ℕ
walk_table user v none = none
walk_table user v (some t) =
    let e = t (v / 4096 % 1024) in
    if e.pte_present == 1 && allowed user e.pte_user
    then some (e.pte_addr * 4096 + v % 4096)
    else none

unfoldable pub translate : Bool → Paging → ℕ → Option ℕ
unfolding walk_table
translate user p v =
    let e = p.page_directory (v / 4194304) in
    if e.pde_present == 1 && allowed user e.pde_user
    then (if e.pde_size == 1
        then some (e.pde_addr / 1024 * 4194304 + v % 4194304)
        else walk_table user v (table_of p e.pde_addr))
    else none
