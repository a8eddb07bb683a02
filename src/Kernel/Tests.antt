-- ===== src/Kernel/Tests.antt =====
-- Reads of an open file, and calls on a closed one, on the sample kernel.
use my_linux_os.Common.{
  ℕ, zero, suc, ◌≤◌, get_elem?, replicate, ◌≡◌, refl, [], ◌∷◌, some, none, false, arith, take, drop,
}
use my_linux_os.Common.Int.{ℤ, pos, minus_one}
use my_linux_os.Pcb.{Pcb, FileDescriptor, file_ops}
use my_linux_os.Kernel.{Kernel, World, got, curr_pcb, with_pcb, syscall_read, syscall_write}
use my_linux_os.Kernel.Dispatch.{OpenFile, remaining, syscall_read-remaining}
use my_linux_os.Kernel.Refusals.{syscall_close-Refused}
use my_linux_os.Descriptors.{syscall_close, close_fn}
use my_linux_os.Descriptors.Close.{IsWellFormed, Fits, unused, used, some_injective}
use my_linux_os.Kernel.Sample.{kernel, pcb}
use my_linux_os.Process.{stdin_entry, stdout_entry}

abbrev at_four : FileDescriptor
at_four = record { file_ops_table = some file_ops; inode = 1; file_pos = 4; flags = 1 }

abbrev shut : FileDescriptor
shut = record { file_ops_table = none; inode = 0; file_pos = 0; flags = 0 }

abbrev with_file : Kernel
with_file = record kernel {
  pcbs = λ i. record pcb { fd_array = stdin_entry ∷ stdout_entry ∷ at_four ∷ shut ∷ [] };
}

abbrev idle : World
idle = record { reg_a_temp = 0; ticks = []; keys = [] }

file-OpenFile : OpenFile with_file 2 at_four
file-OpenFile = record {
  at = refl;
  slot = omega arith;
  in_use = omega arith;
  table = refl;
  not_zero = omega arith;
  in_table = omega arith;
  small = omega arith;
  position = omega arith;
}

syscall_read-remaining_example :
    (k' : Kernel) × (d' : FileDescriptor) × (syscall_read idle (pos 2) false (pos 100) with_file
      ≡ some (got (pos 24) (take 100 (remaining with_file at_four)) k'))
    × OpenFile k' 2 d'
    × (remaining k' d' ≡ drop 100 (remaining with_file at_four))
syscall_read-remaining_example =
    syscall_read-remaining idle with_file 2 100 at_four file-OpenFile (omega arith)

abbrev with_files : Kernel
with_files = record kernel {
  pcbs = λ i. record pcb {
    fd_array = stdin_entry ∷ stdout_entry ∷ at_four ∷ shut ∷ shut ∷ shut ∷ shut ∷ shut ∷ [];
  };
}

all_shut : (n i : ℕ) (d : FileDescriptor) → get_elem? (replicate n shut) i ≡ some d → shut ≡ d
all_shut zero i d at = absurd (ground (arith, at))
all_shut (suc n) zero d at = some_injective at
all_shut (suc n) (suc i) d at = all_shut n i d at

at_four-Fits : Fits at_four
unfolding close_fn
at_four-Fits = used file_ops refl refl refl

with_files-IsWellFormed : IsWellFormed (curr_pcb with_files)
with_files-IsWellFormed = record { size = refl; fits = fits }
  where
    fits :
        (i : ℕ) (d : FileDescriptor)
        → 2 ≤ i
        → get_elem? (curr_pcb with_files).fd_array i ≡ some d
        → Fits d
    fits zero d h at = absurd (omega arith)
    fits (suc zero) d h at = absurd (omega arith)
    fits (suc (suc zero)) d h at = rw⁻¹ (some_injective at) at_four-Fits
    fits (suc (suc (suc n))) d h at = rw⁻¹ (all_shut 5 n d at) (unused refl)

syscall_close-Refused_example :
    (r : ℤ) × (q : Pcb) × (syscall_close (pos 2) (curr_pcb with_files) ≡ some (r, q))
    × (syscall_read idle (pos 2) false (pos 4) (with_pcb q with_files)
        ≡ some (got minus_one [] (with_pcb q with_files)))
    × (syscall_write idle (pos 2) (some (0x61 ∷ [])) (pos 4) (with_pcb q with_files)
        ≡ some (minus_one, with_pcb q with_files))
    × (syscall_close (pos 2) q ≡ some (minus_one, q))
syscall_close-Refused_example =
    syscall_close-Refused idle with_files 2 (pos 4) (some (0x61 ∷ [])) (omega arith) (omega arith)
      with_files-IsWellFormed
