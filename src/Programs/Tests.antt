-- ===== src/Programs/Tests.antt =====
-- Programs on the sample kernel.
use my_linux_os.Common.{
  List, ◌^◌, ℕ, zero, suc, ◌+◌, ◌*◌, ◌/◌, ◌%◌, ◌≡◌, ◌<◌, ◌≤◌, refl, ap, [], ◌∷◌, some, none, true,
  arith, word, replicate, get_elem?, ◌∙◌,
}
use my_linux_os.Common.Int.{pos}
use my_linux_os.Pcb.{Pcb, FileDescriptor, file_ops, dir_ops}
use my_linux_os.FileSys.Apart.{word_off}
use my_linux_os.FileSys.{dentry_at, addr, block_4kb}
use my_linux_os.Screen.Apart.{off_screen}
use my_linux_os.Kernel.Dispatch.{remaining}
use my_linux_os.Kernel.Sample.{fs, kernel, pcb, image}
use my_linux_os.Process.{Frame, stdin_entry, stdout_entry}
use my_linux_os.Printf.Pieces.{put_all}
use my_linux_os.Programs.OnKernel.{Machine, Outside, kernel_system}
use my_linux_os.Programs.OnKernel.Terminal.{Prints, visible, shown, fdputs-shown}
use my_linux_os.Input.Typing.{press, enter}
use my_linux_os.Programs.Shell.{shell}
use my_linux_os.Programs.Shell.Session.{Reads, quit, shell-Session}
use my_linux_os.Programs.Shell.OnKernel.{Reads-typed}
use my_linux_os.Programs.Text.{chars, no_nul-NoNul}
use my_linux_os.Programs.Syserr.{
  err_neg_fd, err_big_fd, err_unopened, err_vidmap, err_stdin_out, err_syscall_num,
}
use my_linux_os.Programs.Syserr.Passes.{OnlyTerminal, PassesWith, tests_pass}
use my_linux_os.Programs.Ls.{list_entries}
use my_linux_os.Programs.Ls.Entries.{entry_at, DirApart, ListsTo}
use my_linux_os.Programs.Ls.OnKernel.{DirLeft, list_entries-ListsTo}
use my_linux_os.Programs.Counter.{count_up}
use my_linux_os.Programs.Counter.Up.{CountsUp, count_up-CountsUp}
use my_linux_os.Programs.Cat.{copy_file}
use my_linux_os.Programs.Cat.OnKernel.{FileLeft, cat_file}

abbrev shut : FileDescriptor
shut = record { file_ops_table = none; inode = 0; file_pos = 0; flags = 0 }

abbrev at_four : FileDescriptor
at_four = record { file_ops_table = some file_ops; inode = 1; file_pos = 4; flags = 1 }

abbrev started : Pcb
started = record pcb {
  fd_array = stdin_entry ∷ stdout_entry ∷ shut ∷ shut ∷ shut ∷ shut ∷ shut ∷ shut ∷ [];
}

abbrev reading : Pcb
reading = record pcb {
  fd_array = stdin_entry ∷ stdout_entry ∷ at_four ∷ shut ∷ shut ∷ shut ∷ shut ∷ shut ∷ [];
}

abbrev running : Pcb → Machine
running p = record { kernel = record kernel { pcbs = λ i. p }; calls = 0 }

abbrev frame : Frame
frame = record {
  world = record { reg_a_temp = 0; ticks = []; keys = [] };
  esp = 0x7ff000;
  ebp = 0x7ff010;
  buffer = replicate 4 0;
  exec_buffer = replicate 4 0;
}

abbrev outside : Outside
outside = record { frames = λ n. frame; child = λ k. none }

started-Prints : Prints started
started-Prints = record { entry = stdout_entry; at = refl; in_use = omega arith; table = refl }

others_shut :
    (i : ℕ)
    → 2 ≤ i
    → i < 8
    → (d : FileDescriptor) × (get_elem? started.fd_array i ≡ some d) × (d.flags ≡ 0)
others_shut zero a b = absurd (omega arith)
others_shut (suc zero) a b = absurd (omega arith)
others_shut (suc (suc zero)) a b = (shut, refl, refl)
others_shut (suc (suc (suc zero))) a b = (shut, refl, refl)
others_shut (suc (suc (suc (suc zero)))) a b = (shut, refl, refl)
others_shut (suc (suc (suc (suc (suc zero))))) a b = (shut, refl, refl)
others_shut (suc (suc (suc (suc (suc (suc zero)))))) a b = (shut, refl, refl)
others_shut (suc (suc (suc (suc (suc (suc (suc zero))))))) a b = (shut, refl, refl)
others_shut (suc (suc (suc (suc (suc (suc (suc (suc i)))))))) a b = absurd (omega arith)

started-OnlyTerminal : OnlyTerminal started
started-OnlyTerminal = record {
  prints = started-Prints;
  stdin = stdin_entry;
  at = refl;
  in_use = omega arith;
  table = refl;
  rest = others_shut;
}

in_block : (k : ℕ) → k < 28 → k / 4096 ≡ 0
in_block k h = omega arith

in_contents : (k : ℕ) → k < 28 → off_screen (addr (12288 + k % 4096)) ≡ true
in_contents k h = ground arith

reading-FileLeft :
    FileLeft image 2 (remaining (running reading).kernel at_four) (running reading).kernel
reading-FileLeft = record {
  entry = at_four;
  opened = record {
    at = refl;
    slot = omega arith;
    in_use = omega arith;
    table = refl;
    not_zero = omega arith;
    in_table = omega arith;
    small = omega arith;
    position = omega arith;
  };
  apart = record {
    inodes = refl;
    size = refl;
    blocks = λ k h. ap (λ z. word_off (addr (8196 + 4 * z))) (in_block k h);
    contents = λ k h.
        ap
          (λ z.
            off_screen
              (addr (12288 + word image (addr (8196 + 4 * z)) * block_4kb + k % block_4kb)))
          (in_block k h)
        ∙ in_contents k h;
  };
  same = λ a off. refl;
  left = refl;
  screen = record {
    row = 0;
    col = 0;
    cursor = record { at_x = refl; at_y = refl; col = omega arith; row = omega arith };
  };
  prints = record { entry = stdout_entry; at = refl; in_use = omega arith; table = refl };
}

cat_file_example :
    (m' : Machine) × (copy_file (kernel_system outside) 30 (pos 2) [] (running reading)
      ≡ some (0, m'))
    × FileLeft image 2 [] m'.kernel
    × (m'.kernel.console.screen
        ≡ put_all
            (visible (remaining (running reading).kernel at_four))
            (running reading).kernel.console.screen)
cat_file_example =
    cat_file outside 2 30 (remaining (running reading).kernel at_four) [] (running reading)
      (omega arith) reading-FileLeft (omega arith)

tests_pass_example :
    PassesWith
      (chars "err_neg_fd: PASS\n")
      (running started)
      (err_neg_fd (kernel_system outside) [] (running started))
    × PassesWith
        (chars "err_big_fd: PASS\n")
        (running started)
        (err_big_fd (kernel_system outside) [] (running started))
    × PassesWith
        (chars "err_unopened: PASS\n")
        (running started)
        (err_unopened (kernel_system outside) [] (running started))
    × PassesWith
        (chars "err_vidmap: PASS\n")
        (running started)
        (err_vidmap (kernel_system outside) (running started))
    × PassesWith
        (chars "err_stdin_out: PASS\n")
        (running started)
        (err_stdin_out (kernel_system outside) [] (running started))
    × PassesWith
        (chars "err_syscall_num: PASS\n")
        (running started)
        (err_syscall_num (kernel_system outside) (running started))
tests_pass_example = tests_pass outside [] (running started) started-OnlyTerminal

abbrev directory : FileDescriptor
directory = record { file_ops_table = some dir_ops; inode = 0; file_pos = 0; flags = 1 }

abbrev listing : Pcb
listing = record pcb {
  fd_array = stdin_entry ∷ stdout_entry ∷ directory ∷ shut ∷ shut ∷ shut ∷ shut ∷ shut ∷ [];
}

entries_off : (i j : ℕ) → i ≤ 1 → j < 64 → off_screen (addr (64 + 64 * i) + j) ≡ true
entries_off i j h c = ground arith

image_kinds : (i : ℕ) → i ≤ 1 → (entry_at image fs i).kind < 2 ^ 24
unfolding dentry_at
image_kinds zero h = omega arith
image_kinds (suc zero) h = omega arith
image_kinds (suc (suc i)) h = absurd (omega arith)

image-DirApart : DirApart image fs
image-DirApart = record {
  count = refl;
  small = omega arith;
  entries = entries_off;
  kinds = image_kinds;
}

listing-DirLeft : DirLeft image 2 0 (running listing).kernel
listing-DirLeft = record {
  entry = directory;
  opened = record {
    at = refl;
    slot = omega arith;
    in_use = omega arith;
    table = refl;
    position = refl;
  };
  same = λ a off. refl;
  screen = record {
    row = 0;
    col = 0;
    cursor = record { at_x = refl; at_y = refl; col = omega arith; row = omega arith };
  };
  prints = record { entry = stdout_entry; at = refl; in_use = omega arith; table = refl };
}

list_entries-ListsTo_example :
    (text : List ℕ) × (value : ℕ) × (m' : Machine) × ListsTo image fs 0 text value
    × (list_entries (kernel_system outside) 3 (pos 2) (replicate 33 0) (running listing)
        ≡ some (value, m'))
    × (m'.kernel.console.screen ≡ put_all text (running listing).kernel.console.screen)
list_entries-ListsTo_example =
    list_entries-ListsTo outside image 2 3 0 (replicate 33 0) (running listing) (omega arith)
      image-DirApart listing-DirLeft refl (omega arith) (omega arith)

count_up-CountsUp_example :
    (text : List ℕ) × (m' : Machine) × CountsUp 9 2 text
    × (count_up (kernel_system outside) 2 9 (replicate 40 0) (running started) ≡ some m')
    × (m'.kernel.console.screen ≡ put_all text (running started).kernel.console.screen)
count_up-CountsUp_example =
    count_up-CountsUp outside 2 9 (replicate 40 0) (running started) started-Prints (omega arith)
      (omega arith)

-- "exit" and enter, typed in the first read of the shell.
abbrev typing : Outside
typing = record {
  frames = λ n. record frame {
    world = record {
      reg_a_temp = 0;
      ticks = [];
      keys = some 0x12 ∷ some 0x2d ∷ some 0x17 ∷ some 0x14 ∷ some 0x1c ∷ [];
    };
  };
  child = λ k. none;
}

abbrev greeted : Machine
greeted = shown (chars "Starting 391 Shell\n") (running started)

exit-Reads : (m : Machine) × Reads (kernel_system typing) (chars "exit") greeted m
exit-Reads =
    Reads-typed typing (4 ∷ 23 ∷ 8 ∷ 19 ∷ []) (0x12 ∷ 0x2d ∷ 0x17 ∷ 0x14 ∷ []) greeted
      started-Prints (record { entry = stdin_entry; at = refl; in_use = omega arith; table = refl })
      (record { waiting = refl; ctrl = refl; alt = refl; start = refl; size = refl })
      (omega arith, refl, (omega arith, refl, (omega arith, refl, (omega arith, refl, tt))))
      (press 0x12 (0x2d ∷ 0x17 ∷ 0x14 ∷ []) (some 0x2d ∷ some 0x17 ∷ some 0x14 ∷ some 0x1c ∷ []) (
        press 0x2d (0x17 ∷ 0x14 ∷ []) (some 0x17 ∷ some 0x14 ∷ some 0x1c ∷ []) (
          press 0x17 (0x14 ∷ []) (some 0x14 ∷ some 0x1c ∷ [])
            (press 0x14 [] (some 0x1c ∷ []) (enter [])))))
      (omega arith) (no_nul-NoNul (chars "exit") refl)

shell-Session_example : shell (kernel_system typing) 2 [] (running started) ≡ some (0, exit-Reads.0)
shell-Session_example =
    shell-Session (kernel_system typing) (chars "exit" ∷ []) 2 [] (running started) greeted
      exit-Reads.0 0 (omega arith)
      (fdputs-shown typing (running started) (chars "Starting 391 Shell\n") started-Prints
        (no_nul-NoNul (chars "Starting 391 Shell\n") refl))
      (quit greeted exit-Reads.0 exit-Reads.1)
