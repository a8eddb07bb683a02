-- ===== src/Kernel.antt =====
-- The kernel's state and the system calls of student-distrib/syscall.c that go through a descriptor of
-- the calling process.
pub mod Blocks
pub mod Dispatch
pub mod Refusals
pub mod Sample
mod Tests
use my_linux_os.Common.{
  ℕ, ◌+◌, ◌*◌, ◌-◌, ◌^◌, ◌%◌, List, [], ◌∷◌, Option, none, some, Bool, true, false, ◌==◌, ◌||◌, ltb,
  leb, if◌then◌else◌, ◌>>=◌, Mem, store,
}
use my_linux_os.Common.Int.{ℤ, pos, minus_one, ltb_ℤ}
use my_linux_os.Io.{Io}
use my_linux_os.Pcb.{
  OpsTable, rtc_ops, file_ops, dir_ops, stdin_ops, stdout_ops, Pcb, FileDescriptor, get_fd,
}
use my_linux_os.FileSys.{
  FileSys, file_read, dir_read, file_write, dir_write, max_num_fd, word_bytes,
}
use my_linux_os.Rtc.{Rtc, read_rtc, write_rtc}
use my_linux_os.Paging.{Paging, syscall_vidmap_helper, user_location, page_size_4mb}
use my_linux_os.Paging.Virtual.{store_virtual}
use my_linux_os.Screen.{Screen}
use my_linux_os.Terminal.{Console, terminal_write}
use my_linux_os.Input.{TerminalRead, line, suspended, terminal_read}
use my_linux_os.Descriptors.{syscall_open, syscall_close}

-- The globals. `pcbs` is the control block at `KPAGE_SIZE - KSTACK_SIZE * (pid + 1)`, by `pid`.
pub record Kernel : Type 0 where
  pub pid_array : List ℕ
  pub pid : ℕ
  pub parent_pid : ℕ
  pub pcbs : ℕ → Pcb
  pub entry_point : ℕ
  pub entry_stack_location : ℕ
  pub globalflag : ℕ
  pub esp0 : ℕ
  pub ss0 : ℕ
  pub console : Console
  pub paging : Paging
  pub fs : FileSys
  pub rtc : Rtc

abbrev pub curr_pcb : Kernel → Pcb
curr_pcb k = k.pcbs k.pid

-- A store to the control block of process `pid`.
unfoldable pub set_pcb : ℕ → Pcb → (ℕ → Pcb) → ℕ → Pcb
set_pcb pid p pcbs i = if i == pid then p else pcbs i

abbrev pub with_pcb : Pcb → Kernel → Kernel
with_pcb p k = record k { pcbs = set_pcb k.pid p k.pcbs }

abbrev pub with_screen : Screen → Kernel → Kernel
with_screen s k = record k { console = record (k.console) { screen = s } }

abbrev pub with_io : Io → Kernel → Kernel
with_io io k = with_screen (record (k.console.screen) { io = io }) k

abbrev pub memory : Kernel → Mem
memory k = k.console.screen.mem

abbrev pub with_memory : Mem → Kernel → Kernel
with_memory m k = with_screen (record (k.console.screen) { mem = m }) k

-- What the devices do during a call: the byte that is in the uninitialised variable of `set_freq_rtc`,
-- in which turns of its wait the clock interrupts, and which keys come in the turns of the other wait.
pub record World : Type 0 where
  pub reg_a_temp : ℕ
  pub ticks : List Bool
  pub keys : List (Option ℕ)

-- How a read ends: with a result and the bytes stored from `buf` on, or in the start of a shell.
pub data Read : Type 0 where
  got : ℤ → List ℕ → Kernel → Read
  preempted : Kernel → Read

-- `bad_read` and `bad_write`
abbrev pub bad_read : ℤ
bad_read = minus_one

abbrev pub bad_write : ℤ
bad_write = minus_one

-- The `read_fn` of a jump table, called. `null` says that `buf` is null.
unfoldable pub read_fn : OpsTable → World → ℤ → Bool → ℤ → Kernel → Option Read
read_fn rtc_ops w fd null nbytes k =
    read_rtc w.reg_a_temp w.ticks k.rtc k.console.screen.io >>= λ r.
    some (got r.0 [] (with_io r.2 (record k { rtc = r.1 })))
read_fn dir_ops w fd null nbytes k =
    dir_read (memory k) k.fs (curr_pcb k) fd >>= λ r. some (got r.0 r.1 (with_pcb r.2 k))
read_fn file_ops w fd null nbytes k = file_read (memory k) k.fs (curr_pcb k) fd null nbytes >>= λ r.
    some (got r.0 r.1 (with_pcb r.2 k))
read_fn stdin_ops w fd null nbytes k = terminal_read w.keys nbytes k.console >>= λ r. elim r [
  | line ret out c ↦ some (got ret out (record k { console = c }))
  | suspended c ↦ some (preempted (record k { console = c }))
]
read_fn stdout_ops w fd null nbytes k = some (got bad_read [] k)

-- `syscall_read`. `none` is a descriptor outside the array, a call of a null pointer, or a wait that
-- has not ended.
unfoldable pub syscall_read : World → ℤ → Bool → ℤ → Kernel → Option Read
unfolding get_fd
syscall_read w fd null nbytes k =
    if null || (ltb_ℤ fd (pos 0) || ltb_ℤ (pos max_num_fd) fd)
    then some (got minus_one [] k)
    else (get_fd (curr_pcb k) fd >>= λ d.
        if d.flags == 0
        then some (got minus_one [] k)
        else (d.file_ops_table >>= λ table. read_fn table w fd null nbytes k))

-- `*(uint32_t*)buf`
unfoldable pub word_of : List ℕ → Option ℕ
word_of (a ∷ b ∷ c ∷ d ∷ buf) = some (a + 256 * b + 65536 * c + 16777216 * d)
word_of _ = none

-- The `write_fn` of a jump table, called.
unfoldable pub write_fn : OpsTable → World → List ℕ → ℤ → Kernel → Option (ℤ × Kernel)
unfolding word_of
write_fn rtc_ops w buf nbytes k = word_of buf >>= λ word.
    let r = write_rtc w.reg_a_temp word nbytes k.console.screen.io in some (r.0, with_io r.1 k)
write_fn dir_ops w buf nbytes k = some (dir_write, k)
write_fn file_ops w buf nbytes k = some (file_write, k)
write_fn stdin_ops w buf nbytes k = some (bad_write, k)
write_fn stdout_ops w buf nbytes k =
    terminal_write (some buf) nbytes k.console.screen >>= λ r. some (r.0, with_screen r.1 k)

-- `syscall_write`; a null pointer is `none`.
unfoldable pub syscall_write : World → ℤ → Option (List ℕ) → ℤ → Kernel → Option (ℤ × Kernel)
unfolding get_fd
syscall_write w fd none nbytes k = some (minus_one, k)
syscall_write w fd (some buf) nbytes k =
    if ltb_ℤ fd (pos 0) || (ltb_ℤ nbytes (pos 0) || ltb_ℤ (pos max_num_fd) fd)
    then some (minus_one, k)
    else (get_fd (curr_pcb k) fd >>= λ d.
        if d.flags == 0
        then some (minus_one, k)
        else (d.file_ops_table >>= λ table. write_fn table w buf nbytes k))

-- `syscall_vidmap` at the pointer `screen_start`, 0 for null; the store through it is `none` where it
-- faults.
unfoldable pub syscall_vidmap : ℕ → Kernel → Option (ℤ × Kernel)
syscall_vidmap screen_start k =
    if screen_start == 0
    then some (minus_one, k)
    else if leb screen_start user_location || ltb (user_location + page_size_4mb) screen_start
    then some (minus_one, k)
    else (let tables = syscall_vidmap_helper k.paging in
        store_virtual tables screen_start (word_bytes 0x8800000) (memory k) >>= λ m.
        some (pos 0, with_memory m (record k { paging = tables })))

-- `syscall_set_handler` and `syscall_sigreturn`
abbrev pub syscall_set_handler : ℤ
syscall_set_handler = minus_one

abbrev pub syscall_sigreturn : ℤ
syscall_sigreturn = minus_one
