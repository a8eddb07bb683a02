-- ===== src/FileSys/Tests.antt =====
-- A small image: one file `a` of five bytes in inode 1, in data block 0.
use my_linux_os.Common.{
  ◌≡◌, refl, [], ◌∷◌, ◌++◌, some, none, Option, false, if◌then◌else◌, ◌==◌, arith, Mem,
}
use my_linux_os.Common.Int.{pos, signed32}
use my_linux_os.Pcb.{Pcb, FileDescriptor, file_ops, get_fd, set_fd}
use my_linux_os.FileSys.{
  FileSys, Dentry, initialise_filesys, file_read, read_data, read_dentry_by_name,
  read_dentry_by_index, boot_size,
}
use my_linux_os.FileSys.Data.{available, file_bytes, read_data_lem}
use my_linux_os.FileSys.Names.{HoldsBytes, Finds, read_dentry_by_name-Finds}
use my_linux_os.FileSys.Read.{CanRead, advance, file_read_lem}

abbrev image : Mem
image a =
    if a == 0
    then 1
    else if a == 4
    then 2
    else if a == 64
    then 0x61
    else if a == 96
    then 2
    else if a == 100
    then 1
    else if a == 8192
    then 5
    else if a == 12288
    then 0x68
    else if a == 12289
    then 0x65
    else if a == 12290
    then 0x6c
    else if a == 12291
    then 0x6c
    else if a == 12292
    then 0x6f
    else 0

abbrev fs : FileSys
fs = record { filesys = 0; boot = 0; inode_ptr = 4096; den_ptr = 64; num_dir = 1 }

abbrev at_start : FileDescriptor
at_start = record { file_ops_table = some file_ops; inode = 1; file_pos = 0; flags = 1 }

abbrev at_two : FileDescriptor
at_two = record { file_ops_table = some file_ops; inode = 1; file_pos = 2; flags = 1 }

abbrev process : Pcb
process = record {
  fd_array = at_start ∷ at_two ∷ at_start ∷ [];
  pid = 0;
  parent_pid = 0;
  exception_flag = 0;
  execute_esp = 0;
  execute_ebp = 0;
  args = [];
}

image-HoldsBytes : HoldsBytes image
image-HoldsBytes a = ground arith

initialise_filesys_test : initialise_filesys image 0 ≡ fs
unfolding initialise_filesys
initialise_filesys_test = refl

read_data_test : read_data image fs 1 3 false 10 ≡ (pos 2, 0x6c ∷ 0x6f ∷ [])
unfolding read_data
read_data_test = refl

read_dentry_by_index_test : read_dentry_by_index image fs 2 ≡ none
unfolding read_dentry_by_index
read_dentry_by_index_test = refl

read_data_example :
    read_data image fs 1 3 false 10
    ≡ (signed32 (available image fs 1 3 10), file_bytes image fs 1 3 (available image fs 1 3 10))
read_data_example = read_data_lem image fs 1 3 10 (omega arith) (omega arith) (omega arith)

process-opened : get_fd process (pos 2) ≡ some at_start
unfolding get_fd
process-opened = refl

process-at_two : get_fd process (pos 1) ≡ some at_two
unfolding get_fd
process-at_two = refl

process-CanRead : CanRead image fs process 2 at_start 5
process-CanRead = record {
  opened = process-opened;
  slot = omega arith;
  not_zero = omega arith;
  in_table = omega arith;
  small = omega arith;
}

file_read_example :
    file_read image fs process (pos 2) false (pos 5)
    ≡ some (pos 5, file_bytes image fs 1 0 5, set_fd process (pos 2) (advance image fs at_start 5))
file_read_example = file_read_lem image fs process 2 at_start 5 process-CanRead

read_dentry_by_name_example :
    (r : Option Dentry) × (read_dentry_by_name image fs (some ((0x61 ∷ []) ++ 0 ∷ [])) ≡ some r)
    × Finds image fs ((0x61 ∷ []) ++ 0 ∷ []) 0 boot_size r
read_dentry_by_name_example =
    read_dentry_by_name-Finds image fs (0x61 ∷ []) [] image-HoldsBytes
      (omega arith, (omega arith, tt)) (omega arith, tt) (omega arith)
