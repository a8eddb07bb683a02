-- ===== src/Process/Tests.antt =====
-- Starts of a program, on the sample kernel.
use my_linux_os.Common.{
  overwrite, ℕ, zero, suc, ◌+◌, ◌-◌, ◌*◌, ◌≡◌, ◌≢◌, ◌<◌, refl, List, [], ◌∷◌, replicate, get_elem?,
  set, some, Bool, false, if◌then◌else◌, bytes, arith,
}
use my_linux_os.Common.Int.{pos, minus_one}
use my_linux_os.Str.{strlen, strncmp}
use my_linux_os.FileSys.{read_dentry_by_name, dentry_at, read_data, file_length}
use my_linux_os.FileSys.Data.{file_bytes}
use my_linux_os.Paging.Map.{within}
use my_linux_os.Paging.Translate.{translate}
use my_linux_os.Paging.Store.{written}
use my_linux_os.Command.{parse_command}
use my_linux_os.Kernel.{Kernel, memory, word_of}
use my_linux_os.Kernel.Sample.{image, fs, ls, pcb, console, tables, kernel}
use my_linux_os.Process.{
  Frame, returned, entered, resumes, count_on, syscall_execute, syscall_halt, is_elf,
}
use my_linux_os.Process.Claim.{LowestFree, Starts}
use my_linux_os.Process.Start.{Unusable, missing, syscall_execute-Unusable}
use my_linux_os.Process.Image.{Usable}
use my_linux_os.Process.Load.{syscall_execute-Usable}
use my_linux_os.Process.Leave.{execute-halt}

abbrev frame : Frame
frame = record {
  world = record { reg_a_temp = 0; ticks = []; keys = [] };
  esp = 0x7ff000;
  ebp = 0x7ff010;
  buffer = replicate 4 0;
  exec_buffer = replicate 4 0;
}

abbrev ls_command : List ℕ
ls_command = 0x6c ∷ 0x73 ∷ 0 ∷ []

abbrev cat_command : List ℕ
cat_command = 0x63 ∷ 0x61 ∷ 0x74 ∷ 0x20 ∷ 0x61 ∷ 0 ∷ []

one_is_lowest : LowestFree kernel.pid_array 1
one_is_lowest = record { below_limit = omega arith; free = refl; taken = taken }
  where
    taken : (j : ℕ) → j < 1 → get_elem? kernel.pid_array j ≢ some 0
    taken zero h e = ground arith
    taken (suc j) h e = absurd (omega arith)

ls-Starts :
    Starts frame ls_command kernel 1
      (console (pos 2))
      (0x6c ∷ 0x73 ∷ replicate 30 0)
      (replicate 128 0)
unfolding count_on parse_command strlen
ls-Starts = record { number = one_is_lowest; counted = refl; parsed = refl }

ls-Usable : Usable frame image fs (0x6c ∷ 0x73 ∷ replicate 30 0) ls
unfolding read_dentry_by_name read_data is_elf dentry_at strlen strncmp bytes
ls-Usable = record {
  found = refl;
  not_zero = omega arith;
  in_table = omega arith;
  magic = refl;
  fits = omega arith;
  buffer = refl;
}

cat-Starts :
    Starts frame cat_command kernel 1
      (console (pos 2))
      (0x63 ∷ 0x61 ∷ 0x74 ∷ replicate 29 0)
      (0x61 ∷ replicate 127 0)
unfolding count_on parse_command strlen
cat-Starts = record { number = one_is_lowest; counted = refl; parsed = refl }

cat-Unusable : Unusable frame image fs (0x63 ∷ 0x61 ∷ 0x74 ∷ replicate 29 0)
unfolding read_dentry_by_name strlen strncmp bytes
cat-Unusable = missing refl

syscall_execute-Unusable_example :
    (k' : Kernel) × (syscall_execute frame cat_command kernel ≡ some (returned minus_one k'))
    × (k'.pid_array ≡ kernel.pid_array)
    × (k'.paging ≡ kernel.paging)
    × (k'.console.screen ≡ kernel.console.screen)
    × (k'.esp0 ≡ kernel.esp0)
    × ((j : ℕ) → j ≢ 1 → k'.pcbs j ≡ kernel.pcbs j)
    × (k'.pid ≡ 1)
syscall_execute-Unusable_example =
    syscall_execute-Unusable frame cat_command kernel 1 (console (pos 2))
      (0x63 ∷ 0x61 ∷ 0x74 ∷ replicate 29 0) (0x61 ∷ replicate 127 0) cat-Starts cat-Unusable

syscall_execute-Usable_example :
    (k' : Kernel) × (syscall_execute frame ls_command kernel ≡ some (entered k'))
    × (k'.pid ≡ 1)
    × (k'.pid_array ≡ set kernel.pid_array 1 1)
    × ((x : ℕ)
        → memory k' x
          ≡ written
              (0x848000 + 1 * 0x400000)
              (file_bytes image fs 1 0 (file_length image fs 1))
              image
              x)
    × ((user : Bool) (v : ℕ)
        → translate user k'.paging v ≡ (
            if within 0x8000000 0x8400000 v
            then some (0x800000 + 1 * 0x400000 + (v - 0x8000000))
            else translate user tables v))
    × ((k'.pcbs 1).pid ≡ 1)
    × ((k'.pcbs 1).parent_pid ≡ 0)
    × ((k'.pcbs 1).args ≡ replicate 128 0)
    × ((k'.pcbs 1).execute_esp ≡ 0x7ff000)
    × ((k'.pcbs 1).execute_ebp ≡ 0x7ff010)
    × ((j : ℕ) → j ≢ 1 → k'.pcbs j ≡ pcb)
    × (word_of (overwrite (read_data (memory k') fs 1 24 false 4).1 (replicate 4 0))
        ≡ some k'.entry_point)
syscall_execute-Usable_example =
    syscall_execute-Usable frame ls_command kernel 1 (console (pos 2))
      (0x6c ∷ 0x73 ∷ replicate 30 0) (replicate 128 0) ls ls-Starts ls-Usable

execute-halt_example :
    (k1 k2 : Kernel) × (syscall_execute frame ls_command kernel ≡ some (entered k1))
    × (syscall_halt frame 5 k1 ≡ some (resumes 0x7ff000 0x7ff010 1 k2))
    × (k2.pid ≡ 0)
    × (k2.pid_array ≡ kernel.pid_array)
    × ((user : Bool) (v : ℕ)
        → translate user k2.paging v ≡ (
            if within 0x8000000 0x8400000 v
            then some (0x800000 + 0 * 0x400000 + (v - 0x8000000))
            else translate user tables v))
    × (k2.esp0 ≡ 0x800000 - 0 * 8192 - 4)
    × (k2.parent_pid ≡ 0)
execute-halt_example =
    execute-halt frame frame 5 ls_command kernel 1 (console (pos 2)) (0x6c ∷ 0x73 ∷ replicate 30 0)
      (replicate 128 0) ls ls-Starts ls-Usable (omega arith) (ground arith) (omega arith) refl
