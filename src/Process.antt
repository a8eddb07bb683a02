-- ===== src/Process.antt =====
-- `syscall_execute` and `syscall_halt` of student-distrib/syscall.c.
pub mod Claim
pub mod Start
pub mod Image
pub mod Load
pub mod Leave
mod Tests
use my_linux_os.Common.{
  ℕ, zero, suc, ◌+◌, ◌*◌, ◌-◌, ◌^◌, ◌%◌, List, [], ◌∷◌, ◌++◌, Option, none, some, Bool, true, false,
  not, ◌==◌, ◌&&◌, ◌||◌, ltb, leb, if◌then◌else◌, ◌>>=◌, require, get_elem?, set, length, drop, map,
  overwrite, Mem,
}
use my_linux_os.Common.Int.{ℤ, pos, negsuc, minus_one, eqb_ℤ, ◌+ℤ◌}
use my_linux_os.Pcb.{Pcb, FileDescriptor, stdin_ops, stdout_ops}
use my_linux_os.FileSys.{FileSys, Dentry, read_dentry_by_name, read_data, file_length}
use my_linux_os.Paging.{syscall_helper, user_location, page_size_4mb, kpage_size}
use my_linux_os.Paging.Virtual.{store_virtual}
use my_linux_os.Terminal.{Console, Term}
use my_linux_os.Command.{parse_command}
use my_linux_os.Kernel.{
  Kernel, World, curr_pcb, set_pcb, with_pcb, with_memory, memory, word_of, syscall_write,
}

abbrev pub kstack_size : ℕ
kstack_size = 8192

abbrev pub max_pid : ℕ
max_pid = 6

abbrev pub image_address : ℕ
image_address = 0x8048000

abbrev pub kernel_ds : ℕ
kernel_ds = 0x18

-- `KPAGE_SIZE - pid * KSTACK_SIZE - MEM_FENCE`
abbrev pub stack_top : ℕ → ℕ
stack_top pid = (kpage_size + 2 ^ 32 - (pid * kstack_size + 4) % 2 ^ 32) % 2 ^ 32

-- What the hardware and the stack hold during a start: the devices, the two registers that are saved,
-- and the bytes that the two uninitialised buffers have.
pub record Frame : Type 0 where
  pub world : World
  pub esp : ℕ
  pub ebp : ℕ
  pub buffer : List ℕ
  pub exec_buffer : List ℕ

-- How `syscall_execute` ends: it returns, or it enters the program at `entry_point` with the stack at
-- `entry_stack_location`.
pub data Executed : Type 0 where
  returned : ℤ → Kernel → Executed
  entered : Kernel → Executed

-- The search for a free process number, `n` rounds from `i` on.
unfoldable pub find_pid : ℕ → ℕ → List ℕ → Option ℕ
find_pid zero i used = none
find_pid (suc n) i [] = none
find_pid (suc n) i (u ∷ used) =
    let rest = find_pid n (i + 1) used in if u == 0 then some i else rest

-- `term_blk[i].process_active++`
unfoldable pub count_on : ℤ → Console → Option Console
count_on (negsuc n) c = none
count_on (pos i) c = get_elem? c.term_blk i >>= λ t. some (record c {
  term_blk = set c.term_blk i (record t { process_active = t.process_active +ℤ pos 1 });
})

abbrev pub count_process : Console → Option Console
count_process c = count_on c.screen.curr_active_terminal c

-- "reached max amount\n", with its terminator
abbrev pub limit_text : List ℕ
limit_text =
    0x72 ∷ 0x65 ∷ 0x61 ∷ 0x63 ∷ 0x68 ∷ 0x65 ∷ 0x64 ∷ 0x20 ∷ 0x6d ∷ 0x61 ∷ 0x78 ∷ 0x20 ∷ 0x61 ∷ 0x6d
    ∷ 0x6f ∷ 0x75 ∷ 0x6e ∷ 0x74 ∷ 0x0a ∷ 0 ∷ []

-- The descriptors of the terminal.
abbrev pub stdin_entry : FileDescriptor
stdin_entry = record { file_ops_table = some stdin_ops; inode = 0; file_pos = 0; flags = 1 }

abbrev pub stdout_entry : FileDescriptor
stdout_entry = record { file_ops_table = some stdout_ops; inode = 0; file_pos = 0; flags = 1 }

-- Steps 1 and 2 with the number `i`: the number is taken, and the control block gets its ids and the
-- descriptors of the terminal.
unfoldable pub claim_pid : ℕ → Kernel → Option Kernel
unfolding count_on
claim_pid i k = count_process k.console >>= λ c.
    let p = k.pcbs i in
    some (record k {
      pid_array = set k.pid_array i 1;
      pid = i;
      parent_pid = (if i == 0 then k.parent_pid else i);
      console = c;
      pcbs =
          set_pcb i
            (record p {
              pid = i;
              parent_pid = (if i == 0 then 0 else k.parent_pid);
              fd_array = set (set p.fd_array 0 stdin_entry) 1 stdout_entry;
            })
            k.pcbs;
    })

-- `pid_array[pid] = 0; return -1;`
abbrev pub give_up : Kernel → Executed
give_up k = returned minus_one (record k { pid_array = set k.pid_array k.pid 0 })

-- Do the first four bytes say that the file is an executable?
unfoldable pub is_elf : List ℕ → Bool
is_elf (a ∷ b ∷ c ∷ d ∷ rest) = a == 0x7f && (b == 0x45 && (c == 0x4c && d == 0x46))
is_elf _ = false

-- Steps 5 to 9 for the file `e`, with the arguments in place. `flush_tlb` has no effect here: addresses
-- are translated by the tables as they are.
unfoldable pub load : Frame → Dentry → Kernel → Option Executed
load f e k =
    let tables = syscall_helper k.pid k.paging in
    let image =
      (read_data (memory k) k.fs e.inode 0 false (file_length (memory k) k.fs e.inode)).1 in
    store_virtual tables image_address image (memory k) >>= λ m.
    let start = overwrite (read_data m k.fs e.inode 24 false 4).1 f.exec_buffer in
    word_of start >>= λ entry. some (
      entered (
        with_memory m (record k {
          paging = tables;
          ss0 = kernel_ds;
          esp0 = stack_top k.pid;
          entry_point = entry;
          entry_stack_location = user_location + page_size_4mb - 4;
          pcbs =
              set_pcb k.pid
                (record (curr_pcb k) {
                  execute_esp = f.esp;
                  execute_ebp = f.ebp;
                  exception_flag = 0;
                })
                k.pcbs;
        })))

-- Steps 4 to 9.
unfoldable pub find_and_load : Frame → List ℕ → Kernel → Option Executed
find_and_load f exe_name k = read_dentry_by_name (memory k) k.fs (some exe_name) >>= λ check.
    elim check [
      | none ↦ some (give_up k)
      | some e ↦
          let head = read_data (memory k) k.fs e.inode 0 false 4 in
          if eqb_ℤ head.0 minus_one
          then some (give_up k)
          else if is_elf (overwrite head.1 f.buffer)
          then load f e k
          else some (give_up k)
    ]

-- `syscall_execute`. `none` is an access outside an array or a page fault of the kernel.
unfoldable pub syscall_execute : Frame → List ℕ → Kernel → Option Executed
syscall_execute f command k = elim (find_pid max_pid 0 k.pid_array) [
  | none ↦ syscall_write f.world (pos 1) (some limit_text) (pos 19) k >>= λ r.
      some (returned (pos 0) r.1)
  | some i ↦ claim_pid i k >>= λ claimed. parse_command command >>= λ parsed.
      find_and_load f parsed.0 (with_pcb (record (curr_pcb claimed) { args = parsed.1 }) claimed)
]

-- How `syscall_halt` ends: it goes on in the frame of the `syscall_execute` that started the process,
-- with the stack registers saved there and a value to return from it; or, for the process with number
-- 0, it enters the program of a new shell.
pub data Halted : Type 0 where
  resumes : (esp ebp eax : ℕ) → Kernel → Halted
  restarts : Kernel → Halted

-- "shell", with its terminator
abbrev pub shell_text : List ℕ
shell_text = 0x73 ∷ 0x68 ∷ 0x65 ∷ 0x6c ∷ 0x6c ∷ 0 ∷ []

-- The value that goes to the parent: `status && 0xF`, or 256 behind an exception.
unfoldable pub exit_value : ℕ → ℕ → ℕ
exit_value status globalflag =
    if status == 0 && globalflag == 1 then 256 else if status == 0 then 0 else 1

-- The second part of `syscall_halt`, for the control block `p` of process `own`.
unfoldable pub leave : ℕ → ℕ → Pcb → Kernel → Halted
unfolding exit_value
leave status own p k =
    let value = exit_value status k.globalflag in
    resumes p.execute_esp p.execute_ebp value (record k {
      pid_array = set k.pid_array k.pid 0;
      pid = p.parent_pid;
      parent_pid = (k.pcbs p.parent_pid).parent_pid;
      paging = syscall_helper p.parent_pid k.paging;
      esp0 = stack_top p.parent_pid;
      ss0 = kernel_ds;
      pcbs = set_pcb own (record p { exception_flag = value }) k.pcbs;
      globalflag = (if status == 0 && k.globalflag == 1 then 0 else k.globalflag);
    })

abbrev pub closed_entry : FileDescriptor → FileDescriptor
closed_entry d = record d { flags = 0 }

-- The loop that closes the descriptors.
abbrev pub close_all : Pcb → Pcb
close_all p = record p { fd_array = map closed_entry p.fd_array }

-- `syscall_halt`
unfoldable pub syscall_halt : Frame → ℕ → Kernel → Option Halted
unfolding leave
syscall_halt f status k =
    let own = k.pid in
    let closed = with_pcb (close_all (curr_pcb k)) k in
    if (curr_pcb k).pid == 0
    then (syscall_execute f shell_text
          (record closed { pid = 2 ^ 32 - 1; pid_array = set k.pid_array 0 0 })
        >>= λ ran. elim ran [
          | entered k' ↦ some (restarts k')
          | returned ret k' ↦
              if eqb_ℤ ret minus_one
              then some (leave status own (k'.pcbs own) k')
              else some (restarts k')
        ])
    else some (leave status own (closed.pcbs own) closed)
