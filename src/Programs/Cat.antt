-- ===== src/Programs/Cat.antt =====
-- myLinuxOS/syscalls/ece391cat.c: the program that prints a file.
pub mod Copies
pub mod OnKernel
use my_linux_os.Common.{ℕ, zero, suc, List, Option, none, some, overwrite, if◌then◌else◌, ◌>>=◌}
use my_linux_os.Common.Int.{ℤ, pos, minus_one, eqb_ℤ}
use my_linux_os.Programs.{System, read_into, ece391_fdputs}
use my_linux_os.Programs.Text.{c_string}

module _ {S : Type 0} (sys : System S) where
  -- The loop, at most `fuel` rounds of it.
  unfoldable pub copy_file : ℕ → ℤ → List ℕ → S → Option (ℕ × S)
  copy_file zero fd buf s = none
  copy_file (suc fuel) fd buf s = read_into sys fd buf (pos 1024) s >>= λ r.
      if eqb_ℤ r.0 (pos 0)
      then some (0, r.2)
      else if eqb_ℤ r.0 minus_one
      then (ece391_fdputs sys (pos 1) (c_string "file read failed\n") r.2 >>= λ t. some (3, t))
      else (sys.ece391_write (pos 1) r.1 r.0 r.2 >>= λ w.
          if eqb_ℤ w.0 minus_one then some (3, w.1) else copy_file fuel fd r.1 w.1)

  -- `main`; `buf` is its buffer of 1024 bytes.
  unfoldable pub cat : ℕ → List ℕ → S → Option (ℕ × S)
  unfolding copy_file
  cat fuel buf s = sys.ece391_getargs (pos 1024) s >>= λ a.
      if eqb_ℤ a.0 (pos 0)
      then (sys.ece391_open (overwrite a.1 buf) a.2 >>= λ f.
          if eqb_ℤ f.0 minus_one
          then (ece391_fdputs sys (pos 1) (c_string "file not found\n") f.1 >>= λ t. some (2, t))
          else copy_file fuel f.0 (overwrite a.1 buf) f.1)
      else (ece391_fdputs sys (pos 1) (c_string "could not read arguments\n") a.2 >>= λ t.
          some (3, t))
