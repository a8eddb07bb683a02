-- ===== src/Process/Image.antt =====
-- The file of a program that `syscall_execute` starts, and its load.
use my_linux_os.Common.{
  overwrite, ℕ, ◌+◌, ◌-◌, ◌*◌, ◌^◌, ◌≤◌, ◌<◌, ◌≡◌, ◌≢◌, refl, ap, ◌∙◌, List, [], ◌∷◌, some, true,
  false, ◌>>=◌, length, arith, Mem, min,
}
use my_linux_os.Common.Int.{ℤ, minus_one, eqb_ℤ, signed32}
use my_linux_os.FileSys.{FileSys, Dentry, read_dentry_by_name, read_data, file_length, total_inodes}
use my_linux_os.FileSys.Data.{available, file_bytes, length-file_bytes, read_data_lem}
use my_linux_os.Paging.{Paging, syscall_helper}
use my_linux_os.Paging.Map.{within}
use my_linux_os.Paging.Translate.{translate}
use my_linux_os.Paging.Program.{translate-syscall_helper}
use my_linux_os.Paging.Store.{written, store_virtual-written}
use my_linux_os.Kernel.{Kernel, memory, with_memory, set_pcb, word_of}
use my_linux_os.Process.{Frame, entered, find_and_load, is_elf, load, kernel_ds, stack_top}
use my_linux_os.Pcb.{Pcb}

-- A program that can be started: a file that the name leads to, inside the inode table, that begins
-- with the four bytes of a program and fits behind the image address in its page.
pub record Usable (f : Frame) (m : Mem) (fs : FileSys) (exe : List ℕ) (e : Dentry) : Type 0 where
  pub found : read_dentry_by_name m fs (some exe) ≡ some (some e)
  pub not_zero : e.inode ≢ 0
  pub in_table : e.inode < total_inodes m fs
  pub magic : is_elf (overwrite (read_data m fs e.inode 0 false 4).1 f.buffer) ≡ true
  pub fits : file_length m fs e.inode ≤ 0x400000 - 0x48000
  pub buffer : length f.exec_buffer ≡ 4

word_of_total : (s : List ℕ) → 4 ≤ length s → (w : ℕ) × (word_of s ≡ some w)
unfolding word_of
word_of_total [] h = absurd (omega arith)
word_of_total (a ∷ []) h = absurd (omega arith)
word_of_total (a ∷ b ∷ []) h = absurd (omega arith)
word_of_total (a ∷ b ∷ c ∷ []) h = absurd (omega arith)
word_of_total (a ∷ b ∷ c ∷ d ∷ s) h = (a + 256 * b + 65536 * c + 16777216 * d, refl)

length-overwrite : (out buffer : List ℕ) → length buffer ≤ length (overwrite out buffer)
length-overwrite [] buffer = omega arith
length-overwrite (c ∷ out) [] = omega arith
length-overwrite (c ∷ out) (b ∷ buffer) = omega (arith, length-overwrite out buffer)

-- The file as `read_data` gives it whole.
whole_file :
    (m : Mem) (fs : FileSys) (inode : ℕ)
    → inode ≢ 0
    → inode < total_inodes m fs
    → file_length m fs inode ≤ 2 ^ 32
    → (read_data m fs inode 0 false (file_length m fs inode)).1
      ≡ file_bytes m fs inode 0 (file_length m fs inode)
whole_file m fs inode some_inode inside small =
    ap (λ (r : ℤ × List ℕ). r.1)
      (read_data_lem m fs inode 0 (file_length m fs inode) some_inode inside (omega arith))
    ∙ ap (file_bytes m fs inode 0) (whole (file_length m fs inode))
  where
    whole : (n : ℕ) → min n (n - 0) ≡ n
    whole n = omega arith

-- The tables of process `pid`, from the image address on.
program_page :
    (p : Paging) (pid j : ℕ)
    → pid < 6
    → j < 0x400000 - 0x48000
    → translate false (syscall_helper pid p) (0x8048000 + j) ≡ some (0x848000 + pid * 0x400000 + j)
program_page p pid j small inside =
    let here : within 0x8000000 0x8400000 (0x8048000 + j) ≡ true = ground arith in
    translate-syscall_helper false p pid (0x8048000 + j) (omega arith)
    ∙ rw here (ap some (omega arith))

pub load_lem :
    (f : Frame) (e : Dentry) (k : Kernel)
    → e.inode ≢ 0
    → e.inode < total_inodes (memory k) k.fs
    → file_length (memory k) k.fs e.inode ≤ 0x400000 - 0x48000
    → length f.exec_buffer ≡ 4
    → k.pid < 6
    → (m : Mem) × (w : ℕ) × (load f e k
        ≡ some (
            entered (
              with_memory m (record k {
                paging = syscall_helper k.pid k.paging;
                ss0 = kernel_ds;
                esp0 = stack_top k.pid;
                entry_point = w;
                entry_stack_location = 0x83ffffc;
                pcbs =
                    set_pcb k.pid
                      (record (k.pcbs k.pid) {
                        execute_esp = f.esp;
                        execute_ebp = f.ebp;
                        exception_flag = 0;
                      })
                      k.pcbs;
              }))))
      × ((x : ℕ)
          → m x
            ≡ written
                (0x848000 + k.pid * 0x400000)
                (file_bytes (memory k) k.fs e.inode 0 (file_length (memory k) k.fs e.inode))
                (memory k)
                x)
      × (word_of (overwrite (read_data m k.fs e.inode 24 false 4).1 f.exec_buffer) ≡ some w)
unfolding load
load_lem f e k some_inode inside fits four small =
    let image = file_bytes (memory k) k.fs e.inode 0 (file_length (memory k) k.fs e.inode) in
    let image_is = whole_file (memory k) k.fs e.inode some_inode inside (omega arith) in
    let len : length image ≡ file_length (memory k) k.fs e.inode =
      length-file_bytes (memory k) k.fs e.inode 0 (file_length (memory k) k.fs e.inode) in
    let (m, run, is) =
      store_virtual-written (syscall_helper k.pid k.paging) 0x8048000 (0x848000 + k.pid * 0x400000)
        image (memory k) (omega (arith, len))
        (λ j h. program_page k.paging k.pid j small (omega (arith, len))) in
    let (w, word) =
      word_of_total (overwrite (read_data m k.fs e.inode 24 false 4).1 f.exec_buffer) (
        omega
          (arith, length-overwrite (read_data m k.fs e.inode 24 false 4).1 f.exec_buffer, four)) in
    (m, w, rw (image_is, run, ◌>>=◌, word) refl, is, word)

-- A control block with the stack registers of a start.
abbrev pub saved : Frame → Pcb → Pcb
saved f p = record p { execute_esp = f.esp; execute_ebp = f.ebp; exception_flag = 0 }

first_bytes :
    (m : Mem) (fs : FileSys) (inode : ℕ)
    → inode ≢ 0
    → inode < total_inodes m fs
    → eqb_ℤ (read_data m fs inode 0 false 4).0 minus_one ≡ false
first_bytes m fs inode some_inode inside =
    ap (λ (r : ℤ × List ℕ). eqb_ℤ r.0 minus_one)
      (read_data_lem m fs inode 0 4 some_inode inside (omega arith))
    ∙ not_minus_one (available m fs inode 0 4) (omega arith)
  where
    not_minus_one : (n : ℕ) → n ≤ 4 → eqb_ℤ (signed32 n) minus_one ≡ false
    not_minus_one n h = ground arith

pub find_and_load-Usable :
    (f : Frame) (exe : List ℕ) (e : Dentry) (k : Kernel)
    → Usable f (memory k) k.fs exe e
    → find_and_load f exe k ≡ load f e k
unfolding find_and_load
find_and_load-Usable f exe e k h =
    rw (h.found, ◌>>=◌, first_bytes (memory k) k.fs e.inode h.not_zero h.in_table, h.magic) refl
