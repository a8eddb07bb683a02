-- ===== src/Programs/OnKernel.antt =====
-- The kernel as the system that programs call: the wrappers of myLinuxOS/syscalls/ece391syscall.S, the
-- dispatch of student-distrib/assembly_linkage.S and the calls of student-distrib/syscall.c.
pub mod Refused
pub mod Terminal
use my_linux_os.Common.{ℕ, ◌+◌, List, Option, none, some, Bool, false, ◌||◌, if◌then◌else◌, ◌>>=◌}
use my_linux_os.Common.Int.{ℤ, pos, minus_one, ltb_ℤ}
use my_linux_os.Descriptors.{syscall_open, syscall_close, syscall_getargs}
use my_linux_os.Kernel.{
  Kernel, World, Read, got, preempted, curr_pcb, with_pcb, memory, syscall_read, syscall_write,
  syscall_vidmap,
}
use my_linux_os.Process.{Frame, Executed, returned, entered, syscall_execute}
use my_linux_os.Programs.{System}

-- The kernel, and how many calls it has served: what the hardware holds during a call is a function of
-- that number.
pub record Machine : Type 0 where
  pub kernel : Kernel
  pub calls : ℕ

abbrev pub next : Machine → Kernel → Machine
next m k = record { kernel = k; calls = m.calls + 1 }

-- What is outside of the kernel: the hardware at each call, and the run of a program that has been
-- entered, up to the value that its halt gives to the parent.
pub record Outside : Type 0 where
  pub frames : ℕ → Frame
  pub child : Kernel → Option (ℤ × Kernel)

abbrev pub world : Outside → Machine → World
world o m = (o.frames m.calls).world

-- A read that a terminal switch has taken the processor from does not return here.
abbrev read_result : Machine → Read → Option (ℤ × List ℕ × Machine)
read_result m (got ret out k) = some (ret, out, next m k)
read_result m (preempted k) = none

abbrev execute_result : Outside → Machine → Executed → Option (ℤ × Machine)
execute_result o m (returned ret k) = some (ret, next m k)
execute_result o m (entered k) = o.child k >>= λ r. some (r.0, next m r.1)

-- `SYSCALL_ASM` with a number outside of 1 to 10; for the others the arguments are not known.
unfoldable pub syscall_asm : ℤ → Machine → Option (ℤ × Machine)
syscall_asm num m =
    if ltb_ℤ num (pos 1) || ltb_ℤ (pos 10) num then some (minus_one, next m m.kernel) else none

abbrev pub kernel_system : Outside → System Machine
kernel_system o = record {
  ece391_read = λ fd nbytes m. syscall_read (world o m) fd false nbytes m.kernel >>= read_result m;
  ece391_write = λ fd buf nbytes m.
      syscall_write (world o m) fd (some buf) nbytes m.kernel >>= λ r. some (r.0, next m r.1);
  ece391_open = λ name m.
      syscall_open (memory m.kernel) m.kernel.fs (some name) (curr_pcb m.kernel) >>= λ r.
      some (r.0, next m (with_pcb r.1 m.kernel));
  ece391_close = λ fd m.
      syscall_close fd (curr_pcb m.kernel) >>= λ r. some (r.0, next m (with_pcb r.1 m.kernel));
  ece391_getargs = λ nbytes m.
      syscall_getargs false nbytes (curr_pcb m.kernel) >>= λ r. some (r.0, r.1, next m m.kernel);
  ece391_vidmap =
      λ screen_start m. syscall_vidmap screen_start m.kernel >>= λ r. some (r.0, next m r.1);
  ece391_execute =
      λ command m. syscall_execute (o.frames m.calls) command m.kernel >>= execute_result o m;
  call_sys = syscall_asm;
}
