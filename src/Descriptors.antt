-- ===== src/Descriptors.antt =====
-- The file descriptor calls of student-distrib/syscall.c on the control block of the calling process:
-- the jump tables, `syscall_open`, `syscall_close` and `syscall_getargs`.
pub mod Open
pub mod Close
mod Tests
use my_linux_os.Common.{
  ℕ, zero, suc, ◌+◌, ◌-◌, List, [], ◌∷◌, ◌++◌, Option, none, some, Bool, true, false, ◌||◌, ◌==◌,
  ltb, if◌then◌else◌, ◌>>=◌, get_elem?, Mem,
}
use my_linux_os.Common.Int.{ℤ, pos, pos_part, minus_one, ltb_ℤ}
use my_linux_os.Str.{strlen}
use my_linux_os.Pcb.{
  OpsTable, rtc_ops, file_ops, dir_ops, stdin_ops, stdout_ops, Pcb, FileDescriptor, get_fd, set_fd,
}
use my_linux_os.FileSys.{FileSys, Dentry, read_dentry_by_name, max_num_fd, file_close, dir_close}
use my_linux_os.Rtc.{close_rtc}

abbrev pub start_fd : ℕ
start_fd = 2

-- The choice of the jump table in `syscall_open`; a file of another type leaves the old pointer.
unfoldable pub table_for : Dentry → FileDescriptor → Option OpsTable
table_for e d =
    if e.kind == 0
    then some rtc_ops
    else if e.kind == 1
    then some dir_ops
    else if e.kind == 2
    then some file_ops
    else d.file_ops_table

-- The stores of `syscall_open` to the descriptor it takes.
unfoldable pub opened : Dentry → FileDescriptor → FileDescriptor
opened e d = record { file_ops_table = table_for e d; inode = e.inode; file_pos = 0; flags = 1 }

-- The loop of `syscall_open`, `n` rounds from descriptor `i` on.
unfoldable pub allocate : ℕ → ℕ → Dentry → Pcb → Option (ℤ × Pcb)
unfolding get_fd
allocate zero i e p = some (minus_one, p)
allocate (suc n) i e p =
    let rest = allocate n (i + 1) e p in
    get_fd p (pos i) >>= λ d.
    if d.flags == 0 then some (pos i, set_fd p (pos i) (opened e d)) else rest

-- `syscall_open`; a null pointer is `none`. The result `none` is a string or an array read past its
-- end.
unfoldable pub syscall_open : Mem → FileSys → Option (List ℕ) → Pcb → Option (ℤ × Pcb)
unfolding allocate
syscall_open m fs none p = some (minus_one, p)
syscall_open m fs (some filename) p = strlen filename >>= λ n.
    if n == 0
    then some (minus_one, p)
    else (read_dentry_by_name m fs (some filename) >>= λ check. elim check [
      | none ↦ some (minus_one, p)
      | some e ↦ allocate (max_num_fd - start_fd) start_fd e p
    ])

-- The `close_fn` of a jump table, called; it is the null pointer for the terminal.
unfoldable pub close_fn : OpsTable → Option ℤ
close_fn rtc_ops = some close_rtc
close_fn dir_ops = some dir_close
close_fn file_ops = some file_close
close_fn stdin_ops = none
close_fn stdout_ops = none

-- `syscall_close`. The result `none` is a descriptor outside the array or a call of a null pointer.
unfoldable pub syscall_close : ℤ → Pcb → Option (ℤ × Pcb)
unfolding get_fd close_fn
syscall_close fd p =
    if ltb_ℤ fd (pos start_fd) || ltb_ℤ (pos max_num_fd) fd
    then some (minus_one, p)
    else (get_fd p fd >>= λ d.
        if d.flags == 1
        then (d.file_ops_table >>= λ table. close_fn table >>= λ ret.
            some (ret, set_fd p fd (record d { flags = 0; inode = 0; file_pos = 0 })))
        else some (minus_one, p))

-- The loop of `syscall_getargs`, `n` rounds from index `i` on: the bytes stored to `buf`. An index
-- outside `args` reads what stands behind the control block, which is `none` here.
unfoldable pub copy_args : ℕ → ℕ → List ℕ → Option (List ℕ)
copy_args zero i args = some []
copy_args (suc n) i args =
    let rest = copy_args n (i + 1) args in
    get_elem? args i >>= λ c.
    if c == 0x20
    then rest
    else (get_elem? args (i + 1) >>= λ next.
        rest >>= λ out. some (if next == 0x20 then c ∷ 0x20 ∷ out else c ∷ out))

-- `syscall_getargs`: the result and the bytes stored from `buf` on. A negative `nbytes` is a loop
-- of no rounds.
unfoldable pub syscall_getargs : Bool → ℤ → Pcb → Option (ℤ × List ℕ)
unfolding copy_args
syscall_getargs null nbytes p =
    if null
    then some (minus_one, [])
    else (get_elem? p.args 0 >>= λ first.
        if first == 0
        then some (minus_one, [])
        else (copy_args (pos_part nbytes) 0 p.args >>= λ out. some (pos 0, out ++ 0 ∷ [])))
