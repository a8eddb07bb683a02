-- ===== src/Process/Leave.antt =====
-- What `syscall_halt` gives back to the parent of a process.
use my_linux_os.Common.{
  ℕ, ◌+◌, ◌-◌, ◌*◌, ◌^◌, ◌<◌, ◌≡◌, ◌≢◌, refl, ap, ◌∙◌, List, Option, some, Bool, true, false, ◌&&◌,
  ◌==◌, if◌then◌else◌, ◌>>=◌, get_elem?, set, arith, ne→==,
}
use my_linux_os.Common.Int.{minus_one, eqb_ℤ}
use my_linux_os.FileSys.{Dentry}
use my_linux_os.Paging.{syscall_helper}
use my_linux_os.Paging.Map.{within}
use my_linux_os.Paging.Translate.{translate}
use my_linux_os.Paging.Program.{translate-syscall_helper}
use my_linux_os.Terminal.{Console}
use my_linux_os.Kernel.{Kernel, memory, with_pcb, set_pcb}
use my_linux_os.Process.{Frame, returned, entered, syscall_execute, kernel_ds, stack_top}
use my_linux_os.Kernel.Blocks.{set_pcb_self, set_pcb_other}
use my_linux_os.Process.Claim.{Starts, claimed_pcb}
use my_linux_os.Pcb.{Pcb}
use my_linux_os.Process.Start.{set_back}
use my_linux_os.Process.Image.{Usable, saved}
use my_linux_os.Process.Load.{
  entered_kernel, entered_kernel-pcbs, entered_kernel-other, syscall_execute-entered_kernel,
}
use my_linux_os.Process.{resumes, restarts, leave, exit_value, syscall_halt, close_all, shell_text}

pub halt-leave :
    (f : Frame) (status : ℕ) (k : Kernel) (p : Pcb)
    → k.pcbs k.pid ≡ p
    → p.pid ≢ 0
    → syscall_halt f status k
      ≡ some (
          leave status k.pid (close_all p) (record k { pcbs = set_pcb k.pid (close_all p) k.pcbs }))
unfolding syscall_halt
halt-leave f status k p is child =
    ap
      (λ (q : Pcb).
        if q.pid == 0
        then (syscall_execute f shell_text (record (with_pcb (close_all q) k) {
          pid = 2 ^ 32 - 1;
          pid_array = set k.pid_array 0 0;
        })
            >>= λ ran. elim ran [
              | entered k' ↦ some (restarts k')
              | returned ret k' ↦
                  if eqb_ℤ ret minus_one
                  then some (leave status k.pid (k'.pcbs k.pid) k')
                  else some (restarts k')
            ])
        else some (
            leave status k.pid (set_pcb k.pid (close_all q) k.pcbs k.pid)
              (with_pcb (close_all q) k)))
      is
    ∙ rw (ne→== p.pid 0 child, set_pcb_self k.pid (close_all p) k.pcbs) refl

value_is :
    (status flag : ℕ)
    → exit_value status flag ≡ (if status == 0 then (if flag == 1 then 256 else 0) else 1)
unfolding exit_value
value_is status flag = ground arith

inner_test :
    (b : Bool) (x y z : Option ℕ) → (if b then x else (if b then y else z)) ≡ (if b then x else z)
inner_test true x y z = refl
inner_test false x y z = refl

caller_stack : (pid : ℕ) → pid < 6 → stack_top pid ≡ 0x800000 - pid * 8192 - 4
caller_stack pid h = omega arith

-- `syscall_execute` that enters a program under a number other than 0, called by a process whose own
-- number is taken and is the one that the global `parent_pid` holds; and then `syscall_halt` in the
-- program: it goes on behind that `syscall_execute`, with the stack registers saved there and the value
-- 256 behind an exception if the status is 0, otherwise 0 for the status 0 and 1 for every other. The
-- caller is current again, the process table is as before, the 4 MB at 128 MB lead to the caller's
-- page and every other address where it led before, the kernel's stack is the caller's, and
-- the global `parent_pid` is the number of the caller's own parent.
pub execute-halt :
    (f f2 : Frame) (status : ℕ) (command : List ℕ) (k : Kernel) (i : ℕ) (c : Console)
    (exe args : List ℕ) (e : Dentry)
    → Starts f command k i c exe args
    → Usable f (memory k) k.fs exe e
    → i ≢ 0
    → get_elem? k.pid_array k.pid ≢ some 0
    → k.pid < 6
    → k.parent_pid ≡ k.pid
    → (k1 k2 : Kernel) × (syscall_execute f command k ≡ some (entered k1))
      × (syscall_halt f2 status k1
          ≡ some (
              resumes f.esp f.ebp
                (if status == 0 then (if k.globalflag == 1 then 256 else 0) else 1)
                k2))
      × (k2.pid ≡ k.pid)
      × (k2.pid_array ≡ k.pid_array)
      × ((user : Bool) (v : ℕ)
          → translate user k2.paging v ≡ (
              if within 0x8000000 0x8400000 v
              then some (0x800000 + k.pid * 0x400000 + (v - 0x8000000))
              else translate user k.paging v))
      × (k2.esp0 ≡ 0x800000 - k.pid * 8192 - 4)
      × (k2.parent_pid ≡ (k.pcbs k.pid).parent_pid)
unfolding leave exit_value
execute-halt f f2 status command k i c exe args e h ok child busy small parent =
    let (m, w, run, is, word) = syscall_execute-entered_kernel f command k i c exe args e h ok in
    let k1 = entered_kernel f i c args k m w in
    let p = record (saved f (claimed_pcb i args k)) { parent_pid = k.pid } in
    let of_caller : (if i == 0 then 0 else k.parent_pid) ≡ k.pid = rw (ne→== i 0 child) parent in
    let own : k1.pcbs i ≡ p =
      entered_kernel-pcbs f i c args k m w
      ∙ ap (λ (n : ℕ). record (saved f (claimed_pcb i args k)) { parent_pid = n }) of_caller in
    let apart : k.pid ≢ i = λ same. busy (rw same h.number.free) in
    let k2 = record k1 {
      pid_array = set (set k.pid_array i 1) i 0;
      pid = k.pid;
      parent_pid = (set_pcb i (close_all p) k1.pcbs k.pid).parent_pid;
      paging = syscall_helper k.pid (syscall_helper i k.paging);
      esp0 = stack_top k.pid;
      ss0 = kernel_ds;
      pcbs =
          set_pcb i (record (close_all p) { exception_flag = exit_value status k.globalflag })
            (set_pcb i (close_all p) k1.pcbs);
      globalflag = (if status == 0 && k.globalflag == 1 then 0 else k.globalflag);
    } in
    (
      k1,
      k2,
      run,
      halt-leave f2 status k1 p own child
          ∙ ap (λ (v : ℕ). some (resumes f.esp f.ebp v k2)) (value_is status k.globalflag),
      refl,
      set_back k.pid_array i h.number.free,
      λ user v.
          translate-syscall_helper user (syscall_helper i k.paging) k.pid v (omega arith)
          ∙ ap
              (λ (z : Option ℕ).
                if within 0x8000000 0x8400000 v
                then some (0x800000 + k.pid * 0x400000 + (v - 0x8000000))
                else z)
              (translate-syscall_helper user k.paging i v (omega (arith, h.number.below_limit)))
          ∙ inner_test (within 0x8000000 0x8400000 v) _ _ _,
      caller_stack k.pid small,
      ap (λ (q : Pcb). q.parent_pid)
          (set_pcb_other i k.pid (close_all p) k1.pcbs apart
            ∙ entered_kernel-other f i c args k m w k.pid apart),
    )
