-- ===== src/Programs/OnKernel/Refused.antt =====
-- The calls that fail on the kernel and leave it as it is.
use my_linux_os.Common.{
  ℕ, zero, suc, ◌≤◌, ◌<◌, ◌≡◌, ◌≢◌, refl, ap, List, [], some, true, false, ◌||◌, ◌>>=◌, get_elem?,
  arith,
}
use my_linux_os.Common.Int.{ℤ, pos, negsuc, minus_one, ltb_ℤ}
use my_linux_os.Pcb.{Pcb, FileDescriptor, stdin_ops, stdout_ops, get_fd}
use my_linux_os.Descriptors.{syscall_close}
use my_linux_os.Kernel.{Kernel, curr_pcb, read_fn, write_fn, syscall_vidmap}
use my_linux_os.Kernel.Blocks.{with_pcb_same}
use my_linux_os.Kernel.Dispatch.{syscall_read-table, syscall_write-table}
use my_linux_os.Kernel.Refusals.{Refused, syscall_read-Refused, syscall_write-Refused}
use my_linux_os.Programs.OnKernel.{Machine, next, Outside, world, kernel_system, syscall_asm}

-- The machine after `n` calls that have left the kernel as it was.
abbrev pub later : ℕ → Machine → Machine
later zero m = m
later (suc n) m = later n (next m m.kernel)

-- A close that does nothing.
pub data Unclosable (p : Pcb) : ℤ → Type 0 where
  below : (n : ℕ) → Unclosable p (negsuc n)
  terminal : (n : ℕ) → n < 2 → Unclosable p (pos n)
  above : (n : ℕ) → 8 < n → Unclosable p (pos n)
  unopened :
      (n : ℕ) (d : FileDescriptor)
      → 2 ≤ n
      → n < 8
      → get_elem? p.fd_array n ≡ some d
      → d.flags ≡ 0
      → Unclosable p (pos n)

syscall_close-Unclosable :
    (fd : ℤ) (p : Pcb) → Unclosable p fd → syscall_close fd p ≡ some (minus_one, p)
unfolding syscall_close get_fd
syscall_close-Unclosable _ p (below n) = ground arith
syscall_close-Unclosable _ p (terminal n h) = ground arith
syscall_close-Unclosable _ p (above n h) = ground arith
syscall_close-Unclosable _ p (unopened n d a b at shut) =
    let inside : (ltb_ℤ (pos n) (pos 2) || ltb_ℤ (pos 8) (pos n)) ≡ false = ground arith in
    rw (inside, at, ◌>>=◌, shut) refl

module _ (o : Outside) (m : Machine) where
  pub read-Refused :
      (fd nbytes : ℤ)
      → Refused (curr_pcb m.kernel) fd (some [])
      → (kernel_system o).ece391_read fd nbytes m ≡ some (minus_one, [], later 1 m)
  read-Refused fd nbytes r =
      rw (syscall_read-Refused (world o m) m.kernel fd nbytes (some []) r, ◌>>=◌) refl

  pub write-Refused :
      (fd nbytes : ℤ) (buf : List ℕ)
      → Refused (curr_pcb m.kernel) fd (some buf)
      → (kernel_system o).ece391_write fd buf nbytes m ≡ some (minus_one, later 1 m)
  write-Refused fd nbytes buf r =
      rw (syscall_write-Refused (world o m) m.kernel fd nbytes (some buf) r, ◌>>=◌) refl

  pub close-Unclosable :
      (fd : ℤ)
      → Unclosable (curr_pcb m.kernel) fd
      → (kernel_system o).ece391_close fd m ≡ some (minus_one, later 1 m)
  close-Unclosable fd u =
      rw (syscall_close-Unclosable fd (curr_pcb m.kernel) u, ◌>>=◌)
        (ap (λ (k : Kernel). some (minus_one, next m k)) (with_pcb_same m.kernel))

  -- Writes to the keyboard and reads from the screen.
  pub write-stdin :
      (fd n : ℕ) (d : FileDescriptor) (buf : List ℕ)
      → fd < 8
      → get_elem? (curr_pcb m.kernel).fd_array fd ≡ some d
      → d.flags ≢ 0
      → d.file_ops_table ≡ some stdin_ops
      → (kernel_system o).ece391_write (pos fd) buf (pos n) m ≡ some (minus_one, later 1 m)
  unfolding write_fn
  write-stdin fd n d buf slot at in_use table =
      rw (syscall_write-table (world o m) m.kernel fd n buf d stdin_ops slot at in_use table, ◌>>=◌)
        refl

  pub read-stdout :
      (fd : ℕ) (n : ℤ) (d : FileDescriptor)
      → fd < 8
      → get_elem? (curr_pcb m.kernel).fd_array fd ≡ some d
      → d.flags ≢ 0
      → d.file_ops_table ≡ some stdout_ops
      → (kernel_system o).ece391_read (pos fd) n m ≡ some (minus_one, [], later 1 m)
  unfolding read_fn
  read-stdout fd n d slot at in_use table =
      rw (syscall_read-table (world o m) m.kernel fd n d stdout_ops slot at in_use table, ◌>>=◌)
        refl

  -- Pointers outside of the program's page.
  pub vidmap-outside :
      (a : ℕ) → a ≤ 0x8000000 → (kernel_system o).ece391_vidmap a m ≡ some (minus_one, later 1 m)
  unfolding syscall_vidmap
  vidmap-outside a h = ground (arith, h)

  pub call_sys-outside :
      (num : ℤ)
      → (ltb_ℤ num (pos 1) || ltb_ℤ (pos 10) num) ≡ true
      → syscall_asm num m ≡ some (minus_one, later 1 m)
  unfolding syscall_asm
  call_sys-outside num h = rw (h) refl
