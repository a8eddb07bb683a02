-- ===== src/Process/Load.antt =====
-- What `syscall_execute` leaves behind when it enters a program.
use my_linux_os.Common.{
  overwrite, ℕ, ◌+◌, ◌-◌, ◌*◌, ◌≡◌, ◌≢◌, refl, ap, ◌∙◌, List, some, Bool, false, ◌==◌,
  if◌then◌else◌, set, arith, Mem,
}
use my_linux_os.FileSys.{Dentry, read_data, file_length}
use my_linux_os.FileSys.Data.{file_bytes}
use my_linux_os.Paging.{syscall_helper}
use my_linux_os.Paging.Map.{within}
use my_linux_os.Paging.Translate.{translate}
use my_linux_os.Paging.Program.{translate-syscall_helper}
use my_linux_os.Paging.Store.{written}
use my_linux_os.Terminal.{Console}
use my_linux_os.Kernel.{Kernel, memory, with_memory, set_pcb, word_of}
use my_linux_os.Process.{Frame, entered, syscall_execute, kernel_ds, stack_top}
use my_linux_os.Kernel.Blocks.{set_pcb_self, set_pcb_other}
use my_linux_os.Process.Claim.{
  Starts, started, syscall_execute-started, claimed_pcb, started-claimed_pcb,
}
use my_linux_os.Pcb.{Pcb}
use my_linux_os.Process.Start.{count_on-screen}
use my_linux_os.Screen.{Screen}
use my_linux_os.Process.Image.{Usable, load_lem, saved, find_and_load-Usable}

-- The kernel when the program is entered, with memory `m` and the entry point `w`.
abbrev pub entered_kernel : Frame → ℕ → Console → List ℕ → Kernel → Mem → ℕ → Kernel
entered_kernel f i c args k m w =
    let k0 = started i c args k in
    with_memory m (record k0 {
      paging = syscall_helper i k.paging;
      ss0 = kernel_ds;
      esp0 = stack_top i;
      entry_point = w;
      entry_stack_location = 0x83ffffc;
      pcbs = set_pcb i (saved f (k0.pcbs i)) k0.pcbs;
    })

-- The control block of the program.
pub entered_kernel-pcbs :
    (f : Frame) (i : ℕ) (c : Console) (args : List ℕ) (k : Kernel) (m : Mem) (w : ℕ)
    → (entered_kernel f i c args k m w).pcbs i ≡ saved f (claimed_pcb i args k)
entered_kernel-pcbs f i c args k m w =
    set_pcb_self i _ _ ∙ ap (saved f) (started-claimed_pcb i c args k)

-- The control blocks of the other processes.
pub entered_kernel-other :
    (f : Frame) (i : ℕ) (c : Console) (args : List ℕ) (k : Kernel) (m : Mem) (w j : ℕ)
    → j ≢ i
    → (entered_kernel f i c args k m w).pcbs j ≡ k.pcbs j
entered_kernel-other f i c args k m w j other =
    set_pcb_other i j _ _ other ∙ set_pcb_other i j _ _ other ∙ set_pcb_other i j _ _ other

pub syscall_execute-entered_kernel :
    (f : Frame) (command : List ℕ) (k : Kernel) (i : ℕ) (c : Console) (exe args : List ℕ)
    (e : Dentry)
    → Starts f command k i c exe args
    → Usable f (memory k) k.fs exe e
    → (m : Mem) × (w : ℕ) × (syscall_execute f command k
        ≡ some (entered (entered_kernel f i c args k m w)))
      × ((x : ℕ)
          → m x
            ≡ written
                (0x848000 + i * 0x400000)
                (file_bytes (memory k) k.fs e.inode 0 (file_length (memory k) k.fs e.inode))
                (memory k)
                x)
      × (word_of (overwrite (read_data m k.fs e.inode 24 false 4).1 f.exec_buffer) ≡ some w)
syscall_execute-entered_kernel f command k i c exe args e h ok =
    let same : c.screen ≡ k.console.screen =
      count_on-screen k.console.screen.curr_active_terminal k.console c h.counted in
    let k0 = started i c args k in
    let ok0 : Usable f (memory k0) k.fs exe e = rw same ok in
    let (m, w, run, is, word) =
      load_lem f e k0 ok0.not_zero ok0.in_table ok0.fits ok0.buffer h.number.below_limit in
    (
      m,
      w,
      syscall_execute-started f command k i c exe args h
          ∙ find_and_load-Usable f exe e k0 ok0
          ∙ run,
      λ x.
          is x
          ∙ ap
              (λ (s : Screen).
                written (0x848000 + i * 0x400000)
                  (file_bytes s.mem k.fs e.inode 0 (file_length s.mem k.fs e.inode)) s.mem x)
              same,
      word,
    )

-- `syscall_execute` with the lowest free process number `i`, a command line that can be taken apart and
-- a program that can be started: it enters the program. The number is taken and current. The
-- file stands in physical memory from the image address of page `i` on, and no other byte of
-- memory has changed; the 4 MB at 128 MB lead to page `i`, every other address where it led
-- before. The control block has the number, as its parent's number what the global parent_pid holds
-- before the call (0 for number 0), the arguments and the stack registers; the other control
-- blocks are unchanged. The entry point is the word that a read at byte 24 of the file gives, after
-- the copy.
pub syscall_execute-Usable :
    (f : Frame) (command : List ℕ) (k : Kernel) (i : ℕ) (c : Console) (exe args : List ℕ)
    (e : Dentry)
    → Starts f command k i c exe args
    → Usable f (memory k) k.fs exe e
    → (k' : Kernel) × (syscall_execute f command k ≡ some (entered k'))
      × (k'.pid ≡ i)
      × (k'.pid_array ≡ set k.pid_array i 1)
      × ((x : ℕ)
          → memory k' x
            ≡ written
                (0x848000 + i * 0x400000)
                (file_bytes (memory k) k.fs e.inode 0 (file_length (memory k) k.fs e.inode))
                (memory k)
                x)
      × ((user : Bool) (v : ℕ)
          → translate user k'.paging v ≡ (
              if within 0x8000000 0x8400000 v
              then some (0x800000 + i * 0x400000 + (v - 0x8000000))
              else translate user k.paging v))
      × ((k'.pcbs i).pid ≡ i)
      × ((k'.pcbs i).parent_pid ≡ (if i == 0 then 0 else k.parent_pid))
      × ((k'.pcbs i).args ≡ args)
      × ((k'.pcbs i).execute_esp ≡ f.esp)
      × ((k'.pcbs i).execute_ebp ≡ f.ebp)
      × ((j : ℕ) → j ≢ i → k'.pcbs j ≡ k.pcbs j)
      × (word_of (overwrite (read_data (memory k') k.fs e.inode 24 false 4).1 f.exec_buffer)
          ≡ some k'.entry_point)
syscall_execute-Usable f command k i c exe args e h ok =
    let (m, w, run, is, word) = syscall_execute-entered_kernel f command k i c exe args e h ok in
    let own = entered_kernel-pcbs f i c args k m w in
    (
      entered_kernel f i c args k m w,
      run,
      refl,
      refl,
      is,
      λ user v. translate-syscall_helper user k.paging i v (omega (arith, h.number.below_limit)),
      ap (λ (p : Pcb). p.pid) own,
      ap (λ (p : Pcb). p.parent_pid) own,
      ap (λ (p : Pcb). p.args) own,
      ap (λ (p : Pcb). p.execute_esp) own,
      ap (λ (p : Pcb). p.execute_ebp) own,
      entered_kernel-other f i c args k m w,
      word,
    )
