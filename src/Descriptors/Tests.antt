-- ===== src/Descriptors/Tests.antt =====
-- A process with the terminal and one file open, over an empty image.
use my_linux_os.Common.{
  ℕ, zero, suc, ◌≡◌, ◌≢◌, ◌≤◌, ◌<◌, ◌+◌, ◌%◌, word, refl, [], ◌∷◌, ◌++◌, replicate, get_elem?,
  Option, some, none, false, if◌then◌else◌, ◌==◌, Mem, arith,
}
use my_linux_os.Common.Int.{ℤ, pos}
use my_linux_os.Pcb.{Pcb, FileDescriptor, file_ops, stdin_ops, stdout_ops}
use my_linux_os.FileSys.{FileSys, Dentry, dentry_at, den_addr, boot_size}
use my_linux_os.FileSys.Names.{Finds, found, missing}
use my_linux_os.Descriptors.{syscall_open, syscall_close, syscall_getargs, close_fn}
use my_linux_os.Descriptors.Open.{Opens, syscall_open-Opens}
use my_linux_os.Descriptors.Close.{
  Fits, unused, used, IsWellFormed, Closes, some_injective, syscall_open-IsWellFormed,
  syscall_close-Closes,
}

-- One directory entry, `a` of type 2 with inode 1; all other bytes are 0.
abbrev image : Mem
image a =
    if a == 0 then 1 else if a == 64 then 0x61 else if a == 96 then 2 else if a == 100 then 1 else 0

abbrev fs : FileSys
fs = record { filesys = 0; boot = 0; inode_ptr = 4096; den_ptr = 64; num_dir = 1 }

abbrev closed_entry : FileDescriptor
closed_entry = record { file_ops_table = none; inode = 0; file_pos = 0; flags = 0 }

abbrev entry : FileDescriptor
entry = record { file_ops_table = some file_ops; inode = 1; file_pos = 0; flags = 1 }

abbrev process : Pcb
process = record {
  fd_array =
      record entry { file_ops_table = some stdin_ops }
      ∷ record entry { file_ops_table = some stdout_ops }
      ∷ entry
      ∷ replicate 5 closed_entry;
  pid = 0;
  parent_pid = 0;
  exception_flag = 0;
  execute_esp = 0;
  execute_ebp = 0;
  args = 0x61 ∷ 0x20 ∷ 0x20 ∷ 0x62 ∷ replicate 124 0;
}

entry-Fits : Fits entry
unfolding close_fn
entry-Fits = used file_ops refl refl refl

-- `a b` comes out with one space.
syscall_getargs_test :
    syscall_getargs false (pos 5) process ≡ some (pos 0, 0x61 ∷ 0x20 ∷ 0x62 ∷ 0 ∷ 0 ∷ [])
unfolding syscall_getargs
syscall_getargs_test = refl

image-HoldsBytes : (a : ℕ) → image a < 256
image-HoldsBytes a = ground arith

all_closed :
    (n i : ℕ) (d : FileDescriptor)
    → get_elem? (replicate n closed_entry) i ≡ some d
    → closed_entry ≡ d
all_closed zero i d at = ground arith
all_closed (suc n) zero d at = some_injective at
all_closed (suc n) (suc i) d at = all_closed n i d at

process-IsWellFormed : IsWellFormed process
unfolding close_fn
process-IsWellFormed = record { size = refl; fits = fits }
  where
    fits : (i : ℕ) (d : FileDescriptor) → 2 ≤ i → get_elem? process.fd_array i ≡ some d → Fits d
    fits zero d h at = absurd (omega arith)
    fits (suc zero) d h at = absurd (omega arith)
    fits (suc (suc zero)) d h at = rw⁻¹ (some_injective at) entry-Fits
    fits (suc (suc (suc n))) d h at = rw⁻¹ (all_closed 5 n d at) (unused refl)

zero_byte : (a : ℕ) → a % 4 ≢ 0 → image a ≡ 0
zero_byte a h = ground arith

low_byte : (a : ℕ) → a % 64 ≡ 32 → image a ≤ 2
low_byte a h = ground arith

kind_small : (a : ℕ) → a % 4 ≡ 0 → image a ≤ 2 → word image a ≤ 2
kind_small a h low = omega (
  arith,
  zero_byte (a + 1) (omega arith),
  zero_byte (a + 2) (omega arith),
  zero_byte (a + 3) (omega arith),
)

kinds :
    (c : Option Dentry)
    → Finds image fs (0x61 ∷ 0 ∷ []) 0 boot_size c
    → (e : Dentry) → c ≡ some e
    → e.kind ≤ 2
unfolding dentry_at
kinds c (found k lo hi has before) e h =
    rw⁻¹ (some_injective h)
      (kind_small (den_addr fs k + 32) (omega arith) (low_byte (den_addr fs k + 32) (omega arith)))
kinds c (missing none_of) e h = ground arith

syscall_open-Opens_example :
    (c : Option Dentry) × (r : ℤ) × (q : Pcb) × Finds image fs ((0x61 ∷ []) ++ 0 ∷ []) 0 boot_size c
    × (syscall_open image fs (some ((0x61 ∷ []) ++ 0 ∷ [])) process ≡ some (r, q))
    × Opens process c r q
syscall_open-Opens_example =
    syscall_open-Opens image fs (0x61 ∷ []) [] process image-HoldsBytes
      (omega arith, (omega arith, tt)) (omega arith, tt) (omega arith) (omega arith) refl

syscall_open-IsWellFormed_example :
    (r : ℤ) × (q : Pcb) × (syscall_open image fs (some ((0x61 ∷ []) ++ 0 ∷ [])) process
      ≡ some (r, q))
    × IsWellFormed q
syscall_open-IsWellFormed_example =
    syscall_open-IsWellFormed image fs (0x61 ∷ []) [] process image-HoldsBytes
      (omega arith, (omega arith, tt)) (omega arith, tt) (omega arith) (omega arith)
      (λ e f. kinds (some e) f e refl) process-IsWellFormed

syscall_close-Closes_example :
    (r : ℤ) × (q : Pcb) × (syscall_close (pos 2) process ≡ some (r, q))
    × Closes process (pos 2) r q
    × IsWellFormed q
syscall_close-Closes_example =
    syscall_close-Closes (pos 2) process (ground arith) process-IsWellFormed
