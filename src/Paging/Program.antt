-- ===== src/Paging/Program.antt =====
-- The program page of each process, and the video page for programs.
use my_linux_os.Common.{
  ℕ, ◌+◌, ◌-◌, ◌*◌, ◌/◌, ◌%◌, ◌^◌, ◌<◌, ◌≡◌, inl, inr, Bool, true, false, ◌||◌, not, ◌==◌, none,
  some, if◌then◌else◌, arith, Bool-cases,
}
use my_linux_os.Paging.{Paging, syscall_helper, page_size_4mb, kpage_size, frame}
use my_linux_os.Paging.Translate.{translate}
use my_linux_os.Paging.Map.{within}

always : (user : Bool) (x : ℕ) → (if not user || true then some x else none) ≡ some x
always user x = ground arith

-- After `syscall_helper(pid)` the 4 MB at 128 MB lead, for the kernel and for programs, to the 4 MB of
-- that process at 8 MB + pid * 4 MB; every other address leads where it led before.
pub translate-syscall_helper :
    (user : Bool) (p : Paging) (pid v : ℕ)
    → pid * page_size_4mb + kpage_size < 2 ^ 32
    → translate user (syscall_helper pid p) v ≡ (
        if within 0x8000000 0x8400000 v
        then some (kpage_size + pid * page_size_4mb + (v - 0x8000000))
        else translate user p v)
unfolding translate syscall_helper
translate-syscall_helper user p pid v h = elim (Bool-cases (within 0x8000000 0x8400000 v)) [
  | inl program ↦
      let slot : (32 == v / 4194304) ≡ true = ground arith in
      let place : frame (pid * page_size_4mb + kpage_size) / 1024 * 4194304 + v % 4194304
          ≡ kpage_size + pid * page_size_4mb + (v - 0x8000000) =
        ground arith in
      rw (slot, program)
        (rw place (always user (kpage_size + pid * page_size_4mb + (v - 0x8000000))))
  | inr other ↦ let slot : (32 == v / 4194304) ≡ false = ground arith in rw (slot, other)
]

-- Two processes never share a byte of their program pages.
pub syscall_helper-disjoint :
    (p q : Paging) (i j v w x : ℕ)
    → i * page_size_4mb + kpage_size < 2 ^ 32
    → j * page_size_4mb + kpage_size < 2 ^ 32
    → within 0x8000000 0x8400000 v ≡ true
    → within 0x8000000 0x8400000 w ≡ true
    → translate true (syscall_helper i p) v ≡ some x
    → translate true (syscall_helper j q) w ≡ some x
    → (i ≡ j) × (v ≡ w)
syscall_helper-disjoint p q i j v w x hi hj hv hw e f =
    ground (arith, translate-syscall_helper true p i v hi, translate-syscall_helper true q j w hj)
