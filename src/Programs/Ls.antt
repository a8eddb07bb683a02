-- ===== src/Programs/Ls.antt =====
-- myLinuxOS/syscalls/ece391ls.c: the program that lists the directory.
pub mod Entries
pub mod Rows
pub mod OnKernel
use my_linux_os.Common.{ℕ, zero, suc, ◌+◌, List, Option, none, some, if◌then◌else◌, ◌>>=◌}
use my_linux_os.Common.Int.{ℤ, pos, minus_one, eqb_ℤ, ◌+ℤ◌}
use my_linux_os.Programs.{System, read_into, ece391_fdputs}
use my_linux_os.Programs.Text.{c_string}
use my_linux_os.Programs.Buffer.{put_at}

module _ {S : Type 0} (sys : System S) where
  -- The loop, at most `fuel` rounds of it.
  unfoldable pub list_entries : ℕ → ℤ → List ℕ → S → Option (ℕ × S)
  list_entries zero fd buf s = none
  list_entries (suc fuel) fd buf s = read_into sys fd buf (pos 32) s >>= λ r.
      if eqb_ℤ r.0 (pos 0)
      then some (0, r.2)
      else if eqb_ℤ r.0 minus_one
      then (ece391_fdputs sys (pos 1) (c_string "directory entry read failed\n") r.2 >>= λ t.
          some (3, t))
      else (put_at r.1 r.0 0x0a >>= λ row. sys.ece391_write (pos 1) row (r.0 +ℤ pos 1) r.2 >>= λ w.
          if eqb_ℤ w.0 minus_one then some (3, w.1) else list_entries fuel fd row w.1)

  -- `main`; `buf` is its buffer of 33 bytes.
  unfoldable pub ls : ℕ → List ℕ → S → Option (ℕ × S)
  unfolding list_entries
  ls fuel buf s = sys.ece391_open (c_string ".") s >>= λ f.
      if eqb_ℤ f.0 minus_one
      then (ece391_fdputs sys (pos 1) (c_string "directory open failed\n") f.1 >>= λ t. some (2, t))
      else list_entries fuel f.0 buf f.1
