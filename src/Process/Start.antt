-- ===== src/Process/Start.antt =====
-- What `syscall_execute` leaves behind when the program cannot be started, and when it is.
use my_linux_os.Common.{
  ℕ, zero, suc, ◌≡◌, ◌≢◌, refl, sym, ap, ◌∙◌, inl, inr, List, [], ◌∷◌, none, some, false, ◌>>=◌,
  get_elem?, set, arith, Mem, Option-cases,
}
use my_linux_os.Common.Int.{ℤ, pos, negsuc, minus_one}
use my_linux_os.FileSys.{FileSys, Dentry, read_dentry_by_name, read_data}
use my_linux_os.Terminal.{Console}
use my_linux_os.Kernel.{Kernel, memory}
use my_linux_os.Process.{
  Frame, returned, count_on, find_and_load, syscall_execute, give_up, is_elf, overwrite,
}
use my_linux_os.Descriptors.Close.{some_injective}
use my_linux_os.Kernel.Blocks.{set_pcb_other}
use my_linux_os.Process.Claim.{Starts, started, syscall_execute-started}

pub count_on-screen : (t : ℤ) (c d : Console) → count_on t c ≡ some d → d.screen ≡ c.screen
unfolding count_on
count_on-screen (negsuc n) c d h = ground arith
count_on-screen (pos i) c d h = elim (Option-cases (get_elem? c.term_blk i)) [
  | inl e ↦ ground arith
  | inr (t, e) ↦ ap (λ (o : Console). o.screen) (sym (some_injective (rw (e, ◌>>=◌) at h)))
]

-- No program can be started from the file that the name leads to, if any.
pub data Unusable (f : Frame) (m : Mem) (fs : FileSys) (exe : List ℕ) : Type 0 where
  missing : read_dentry_by_name m fs (some exe) ≡ some none → Unusable f m fs exe
  unreadable :
      (e : Dentry)
      → read_dentry_by_name m fs (some exe) ≡ some (some e)
      → (read_data m fs e.inode 0 false 4).0 ≡ minus_one
      → Unusable f m fs exe
  no_program :
      (e : Dentry)
      → read_dentry_by_name m fs (some exe) ≡ some (some e)
      → is_elf (overwrite (read_data m fs e.inode 0 false 4).1 f.buffer) ≡ false
      → Unusable f m fs exe

find_and_load-Unusable :
    (f : Frame) (exe : List ℕ) (k : Kernel)
    → Unusable f (memory k) k.fs exe
    → find_and_load f exe k ≡ some (give_up k)
unfolding find_and_load
find_and_load-Unusable f exe k (missing none_of) = rw (none_of, ◌>>=◌) refl
find_and_load-Unusable f exe k (unreadable e found fails) = rw (found, ◌>>=◌, fails) refl
find_and_load-Unusable f exe k (no_program e found other) = rw (found, ◌>>=◌, other) (ground arith)

pub set_back : (used : List ℕ) (i : ℕ) → get_elem? used i ≡ some 0 → set (set used i 1) i 0 ≡ used
set_back [] i h = refl
set_back (u ∷ used) zero h = ground arith
set_back (u ∷ used) (suc i) h = ap (◌∷◌ u) (set_back used i h)

-- `syscall_execute` with a free process number and a command line that can be taken apart, when no file
-- has the name, when the file cannot be read, or when it does not begin with the four bytes of a
-- program: it returns -1, and the process table, the page tables, the screen, the stack of the kernel
-- and every control block but that of the number it tried are as before. The global `pid` is
-- left at that number.
pub syscall_execute-Unusable :
    (f : Frame) (command : List ℕ) (k : Kernel) (i : ℕ) (c : Console) (exe args : List ℕ)
    → Starts f command k i c exe args
    → Unusable f (memory k) k.fs exe
    → (k' : Kernel) × (syscall_execute f command k ≡ some (returned minus_one k'))
      × (k'.pid_array ≡ k.pid_array)
      × (k'.paging ≡ k.paging)
      × (k'.console.screen ≡ k.console.screen)
      × (k'.esp0 ≡ k.esp0)
      × ((j : ℕ) → j ≢ i → k'.pcbs j ≡ k.pcbs j)
      × (k'.pid ≡ i)
syscall_execute-Unusable f command k i c exe args h bad =
    let same : c.screen ≡ k.console.screen =
      count_on-screen k.console.screen.curr_active_terminal k.console c h.counted in
    let k0 = started i c args k in
    (
      record k0 { pid_array = set k0.pid_array i 0 },
      syscall_execute-started f command k i c exe args h
          ∙ find_and_load-Unusable f exe k0 (rw same bad),
      set_back k.pid_array i h.number.free,
      refl,
      same,
      refl,
      λ j other. set_pcb_other i j _ _ other ∙ set_pcb_other i j _ _ other,
      refl,
    )
