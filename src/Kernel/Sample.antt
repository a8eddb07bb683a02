-- ===== src/Kernel/Sample.antt =====
-- A kernel that runs a shell as process 0, over an image with one program `ls` of 28 bytes, for the
-- examples.
use my_linux_os.Common.{[], ◌∷◌, replicate, true, false, if◌then◌else◌, ◌==◌, Mem}
use my_linux_os.Common.Int.{ℤ, pos, minus_one}
use my_linux_os.Pcb.{Pcb}
use my_linux_os.FileSys.{FileSys, Dentry}
use my_linux_os.Paging.{Paging}
use my_linux_os.Terminal.{Console, Term}
use my_linux_os.Kernel.{Kernel}
use my_linux_os.Process.{stdin_entry}

abbrev pub image : Mem
image a =
    if a == 0
    then 1
    else if a == 4
    then 2
    else if a == 64
    then 0x6c
    else if a == 65
    then 0x73
    else if a == 96
    then 2
    else if a == 100
    then 1
    else if a == 8192
    then 28
    else if a == 12288
    then 0x7f
    else if a == 12289
    then 0x45
    else if a == 12290
    then 0x4c
    else if a == 12291
    then 0x46
    else if a == 12313
    then 0x80
    else if a == 12314
    then 0x04
    else if a == 12315
    then 0x08
    else 0

abbrev pub fs : FileSys
fs = record { filesys = 0; boot = 0; inode_ptr = 4096; den_ptr = 64; num_dir = 1 }

abbrev pub ls : Dentry
ls = record {
  file_name = 0x6c ∷ 0x73 ∷ replicate 30 0;
  kind = 2;
  inode = 1;
  reserved = replicate 24 0;
}

abbrev pub pcb : Pcb
pcb = record {
  fd_array = replicate 8 stdin_entry;
  pid = 0;
  parent_pid = 0;
  exception_flag = 0;
  execute_esp = 0;
  execute_ebp = 0;
  args = [];
}

abbrev pub term : Term
term = record { process_active = pos 1; cursor_x = pos 0; cursor_y = pos 0; video_mem = 0xb9000 }

abbrev pub console : ℤ → Console
console active = record {
  screen = record {
    mem = image;
    screen_x = pos 0;
    screen_y = pos 0;
    curr_active_terminal = pos 0;
    io = record { log = []; interrupts = true };
  };
  keys = record {
    key_buffer = replicate 256 0;
    buffer_index = minus_one;
    shift_flag = false;
    ctrl_flag = false;
    capslock_flag = false;
    enter_flag = false;
    alt_flag = false;
  };
  term_blk = record term { process_active = active } ∷ term ∷ term ∷ [];
}

abbrev pub tables : Paging
tables = record {
  page_directory = λ i. record {
    pde_present = 0;
    pde_rw = 0;
    pde_user = 0;
    pde_wt = 0;
    pde_dis_cache = 0;
    pde_accessed = 0;
    pde_reserved = 0;
    pde_size = 0;
    pde_global = 0;
    pde_avalaible = 0;
    pde_addr = 0;
  };
  page_table = λ i. record {
    pte_present = 0;
    pte_rw = 0;
    pte_user = 0;
    pte_wt = 0;
    pte_dis_cache = 0;
    pte_accessed = 0;
    pte_dirty = 0;
    pte_reserved = 0;
    pte_global = 0;
    pte_avalaible = 0;
    pte_addr = 0;
  };
  page_vidmap = λ i. record {
    pte_present = 0;
    pte_rw = 0;
    pte_user = 0;
    pte_wt = 0;
    pte_dis_cache = 0;
    pte_accessed = 0;
    pte_dirty = 0;
    pte_reserved = 0;
    pte_global = 0;
    pte_avalaible = 0;
    pte_addr = 0;
  };
  directory_at = 0xf000;
  table_at = 0x10000;
  vidmap_at = 0x11000;
  cr3 = 0;
  enabled = true;
}

abbrev pub kernel : Kernel
kernel = record {
  pid_array = 1 ∷ 0 ∷ 0 ∷ 0 ∷ 0 ∷ 0 ∷ [];
  pid = 0;
  parent_pid = 0;
  pcbs = λ i. pcb;
  entry_point = 0;
  entry_stack_location = 0;
  globalflag = 0;
  esp0 = 0x7ffffc;
  ss0 = 0x18;
  console = console (pos 1);
  paging = tables;
  fs = fs;
  rtc = record { prev = 0; interrupt_flag = 0 };
}
