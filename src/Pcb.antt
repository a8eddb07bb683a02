-- ===== src/Pcb.antt =====
-- The process control block of student-distrib/syscall.h: the file descriptors of a process, its
-- ids, its saved stack and its arguments.
use my_linux_os.Common.{ℕ, List, Option, none, get_elem?, set}
use my_linux_os.Common.Int.{ℤ, pos, negsuc}

-- The jump tables. Which functions each holds is fixed by `ops_table_initialize`.
pub data OpsTable : Type 0 where
  rtc_ops file_ops dir_ops stdin_ops stdout_ops : OpsTable

-- `file_descriptor_t`. The table pointer is `none` until one is stored; `inode` and `file_pos` are
-- the 32-bit patterns, since every use converts them to `uint32_t`.
pub record FileDescriptor : Type 0 where
  pub file_ops_table : Option OpsTable
  pub inode : ℕ
  pub file_pos : ℕ
  pub flags : ℕ

-- `pcb_t`
pub record Pcb : Type 0 where
  pub fd_array : List FileDescriptor
  pub pid : ℕ
  pub parent_pid : ℕ
  pub exception_flag : ℕ
  pub execute_esp : ℕ
  pub execute_ebp : ℕ
  pub args : List ℕ

-- `fd_array[fd]`: `none` for an index outside the array.
unfoldable pub get_fd : Pcb → ℤ → Option FileDescriptor
get_fd p (pos n) = get_elem? p.fd_array n
get_fd p (negsuc n) = none

unfoldable pub set_fd : Pcb → ℤ → FileDescriptor → Pcb
set_fd p (pos n) d = record p { fd_array = set p.fd_array n d }
set_fd p (negsuc n) d = p
