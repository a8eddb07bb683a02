-- ===== src/Paging/Video.antt =====
-- The page of video memory that a program asks for.
use my_linux_os.Common.{
  ℕ, ◌+◌, ◌-◌, ◌*◌, ◌/◌, ◌%◌, ◌^◌, ◌<◌, ◌≡◌, ◌≢◌, refl, Bool, true, false, ◌||◌, not, ◌==◌, none,
  some, if◌then◌else◌, arith, ne→==,
}
use my_linux_os.Paging.{Paging, syscall_vidmap_helper}
use my_linux_os.Paging.Translate.{translate, walk_table}
use my_linux_os.Paging.Map.{within}

open_to_all :
    (user : Bool) (x : ℕ)
    → (if not user || true then (if not user || true then some x else none) else none) ≡ some x
open_to_all user x = ground arith

video_page :
    (user : Bool) (p : Paging) (v : ℕ)
    → p.vidmap_at < 2 ^ 32
    → p.table_at / 4096 ≢ p.vidmap_at / 4096
    → within 0x8800000 0x8801000 v ≡ true
    → translate user (syscall_vidmap_helper p) v ≡ some (0xb8000 + (v - 0x8800000))
unfolding translate syscall_vidmap_helper walk_table
video_page user p v h apart there =
    let slot : (34 == v / 4194304) ≡ true = ground arith in
    let small : p.vidmap_at % 2 ^ 32 / 4096 ≡ p.vidmap_at / 4096 = omega arith in
    let other : (p.vidmap_at / 4096 == p.table_at / 4096) ≡ false = ground arith in
    let itself : (p.vidmap_at / 4096 == p.vidmap_at / 4096) ≡ true = ground arith in
    let first : (0 == v / 4096 % 1024) ≡ true = ground arith in
    let place : 0xb8 * 4096 + v % 4096 ≡ 0xb8000 + (v - 0x8800000) = ground arith in
    rw (slot)
      (rw (small, other, itself, first) (rw place (open_to_all user (0xb8000 + (v - 0x8800000)))))

elsewhere :
    (user : Bool) (p : Paging) (v : ℕ)
    → within 0x8800000 0x8c00000 v ≡ false
    → (p.page_directory (v / 4194304)).pde_addr ≢ p.vidmap_at / 4096
    → translate user (syscall_vidmap_helper p) v ≡ translate user p v
unfolding translate syscall_vidmap_helper
elsewhere user p v outside apart =
    let slot : (34 == v / 4194304) ≡ false = ground arith in
    rw (slot, ne→== (p.page_directory (v / 4194304)).pde_addr (p.vidmap_at / 4096) apart) refl

-- After `syscall_vidmap_helper`, with the table for the video page apart from the kernel's page table,
-- the 4 KB at 136 MB lead, for the kernel and for programs, to the video memory; an address outside
-- the 4 MB at 136 MB whose directory entry does not hold that table's frame leads where it led before.
pub translate-syscall_vidmap_helper :
    (user : Bool) (p : Paging) (v : ℕ)
    → p.vidmap_at < 2 ^ 32
    → p.table_at / 4096 ≢ p.vidmap_at / 4096
    → (within 0x8800000 0x8801000 v ≡ true
        → translate user (syscall_vidmap_helper p) v ≡ some (0xb8000 + (v - 0x8800000)))
      × (within 0x8800000 0x8c00000 v ≡ false
          → (p.page_directory (v / 4194304)).pde_addr ≢ p.vidmap_at / 4096
          → translate user (syscall_vidmap_helper p) v ≡ translate user p v)
translate-syscall_vidmap_helper user p v h apart = (video_page user p v h apart, elsewhere user p v)
