-- ===== src/Programs/Cat/OnKernel.antt =====
-- `cat` on the kernel: its loop shows the file that its descriptor is open on.
use my_linux_os.Common.{
  ℕ, ◌+◌, ◌-◌, ◌≤◌, ◌<◌, ◌≡◌, refl, sym, ap, ◌∙◌, List, [], ◌++◌, some, ◌>>=◌, take, drop, length,
  arith, Mem,
}
use my_linux_os.Common.Int.{pos}
use my_linux_os.Pcb.{FileDescriptor}
use my_linux_os.FileSys.{file_length, total_inodes}
use my_linux_os.FileSys.Data.{file_bytes, available}
use my_linux_os.FileSys.Apart.{FileApart, total_inodes_same, file_length_same, file_bytes_same}
use my_linux_os.Screen.{Screen}
use my_linux_os.Screen.Apart.{AgreeApart}
use my_linux_os.Printf.Pieces.{put_all, put_all-append}
use my_linux_os.Kernel.{Kernel, memory, curr_pcb, with_screen}
use my_linux_os.Kernel.Dispatch.{OpenFile, remaining, moved, syscall_read-advanced}
use my_linux_os.Programs.OnKernel.{Machine, Outside, next, world, kernel_system}
use my_linux_os.Programs.OnKernel.Terminal.{
  OnScreen, put_all_apart, Prints-moved, Prints, shown, visible, visible-append, write-visible,
}
use my_linux_os.Programs.Cat.{copy_file}
use my_linux_os.Programs.Cat.Copies.{Streams, copy_file-shows}

-- Descriptor `fd` is open on a file whose bytes left to read are `bytes`, and writes show on the
-- screen, where `base` is the memory but for the screen.
pub record FileLeft (base : Mem) (fd : ℕ) (bytes : List ℕ) (k : Kernel) : Type 0 where
  pub entry : FileDescriptor
  pub opened : OpenFile k fd entry
  pub apart : FileApart base k.fs entry.inode
  pub same : AgreeApart base (memory k)
  pub left : remaining k entry ≡ bytes
  pub screen : OnScreen k.console.screen
  pub prints : Prints (curr_pcb k)

read_left :
    (o : Outside) (base : Mem) (fd : ℕ) (bytes : List ℕ) (m : Machine)
    → 2 ≤ fd
    → FileLeft base fd bytes m.kernel
    → (m' : Machine) × ((kernel_system o).ece391_read (pos fd) (pos 1024) m
        ≡ some (pos (length (take 1024 bytes)), take 1024 bytes, m'))
      × FileLeft base fd (drop 1024 bytes) m'.kernel
      × (m'.kernel.console.screen ≡ m.kernel.console.screen)
read_left o base fd bytes m h f =
    let k = m.kernel in
    let c : ℕ = available (memory k) k.fs f.entry.inode f.entry.file_pos 1024 in
    let (is, opened, left) =
      syscall_read-advanced (world o m) k fd 1024 f.entry f.opened (omega arith) in
    (
      next m (moved fd f.entry c k),
      rw (is, ◌>>=◌)
          (ap
            (λ (b : List ℕ).
              some (pos (length (take 1024 b)), take 1024 b, next m (moved fd f.entry c k)))
            f.left),
      record {
        entry = record f.entry { file_pos = f.entry.file_pos + c };
        opened = opened;
        apart = f.apart;
        same = f.same;
        left = left ∙ ap (drop 1024) f.left;
        screen = f.screen;
        prints = Prints-moved k fd c f.entry h f.prints;
      },
      refl,
    )

kept_file :
    (base : Mem) (fd : ℕ) (k : Kernel) (s : Screen) (d : FileDescriptor)
    → FileApart base k.fs d.inode
    → AgreeApart base (memory k)
    → AgreeApart base s.mem
    → OpenFile k fd d
    → OpenFile (with_screen s k) fd d × (remaining (with_screen s k) d ≡ remaining k d)
kept_file base fd k s d apart before behind o =
    let size : file_length s.mem k.fs d.inode ≡ file_length (memory k) k.fs d.inode =
      file_length_same base s.mem behind k.fs d.inode apart
      ∙ sym (file_length_same base (memory k) before k.fs d.inode apart) in
    let inodes : total_inodes s.mem k.fs ≡ total_inodes (memory k) k.fs =
      total_inodes_same base s.mem behind k.fs d.inode apart
      ∙ sym (total_inodes_same base (memory k) before k.fs d.inode apart) in
    let known : file_length (memory k) k.fs d.inode ≡ file_length base k.fs d.inode =
      file_length_same base (memory k) before k.fs d.inode apart in
    let n : ℕ = file_length (memory k) k.fs d.inode - d.file_pos in
    (
      record {
        at = o.at;
        slot = o.slot;
        in_use = o.in_use;
        table = o.table;
        not_zero = o.not_zero;
        in_table = omega (arith, o.in_table, inodes);
        small = omega (arith, o.small, size);
        position = omega (arith, o.position, size);
      },
      ap (λ (l : ℕ). file_bytes s.mem k.fs d.inode d.file_pos (l - d.file_pos)) size
          ∙ file_bytes_same base s.mem behind k.fs d.inode apart n d.file_pos
              (omega (arith, o.position, known))
          ∙ sym (
              file_bytes_same base (memory k) before k.fs d.inode apart n d.file_pos
                (omega (arith, o.position, known))),
    )

write_left :
    (o : Outside) (base : Mem) (fd : ℕ) (bytes text more : List ℕ) (m : Machine)
    → FileLeft base fd bytes m.kernel
    → (m' : Machine) × ((kernel_system o).ece391_write (pos 1) (text ++ more) (pos (length text)) m
        ≡ some (pos 0, m'))
      × FileLeft base fd bytes m'.kernel
      × (m'.kernel.console.screen ≡ put_all (visible text) m.kernel.console.screen)
write_left o base fd bytes text more m f =
    let k = m.kernel in
    let s : Screen = put_all (visible text) k.console.screen in
    let (on, changed) = put_all_apart (visible text) k.console.screen f.screen in
    let behind : AgreeApart base s.mem = λ a off. changed a off ∙ f.same a off in
    let (opened, all) = kept_file base fd k s f.entry f.apart f.same behind f.opened in
    (
      shown (visible text) m,
      write-visible o m text more f.prints,
      record {
        entry = f.entry;
        opened = opened;
        apart = f.apart;
        same = behind;
        left = all ∙ f.left;
        screen = on;
        prints = f.prints;
      },
      refl,
    )

abbrev kernel_streams :
    (o : Outside) (base : Mem) (fd : ℕ) → 2 ≤ fd → Streams (kernel_system o) (pos fd)
kernel_streams o base fd h = record {
  View = Screen;
  view = λ m. m.kernel.console.screen;
  show = λ text s. put_all (visible text) s;
  show_none = λ s. refl;
  show_two = λ a b s. sym (
      ap (λ (t : List ℕ). put_all t s) (visible-append a b)
      ∙ put_all-append (visible a) (visible b) s);
  Left = λ bytes m. FileLeft base fd bytes m.kernel;
  read_law = λ bytes m f. read_left o base fd bytes m h f;
  write_law = λ bytes text more m f. write_left o base fd bytes text more m f;
}

-- The loop of `cat`, on the kernel, with a descriptor that is open on a file: it ends and returns
-- 0, and what it has put on the screen are the bytes of the file from the descriptor's position on,
-- in order, without the null bytes, which the terminal skips; behind it nothing of the file is left
-- to read. It is so when the image lies outside of the page of the screen, the cursor is on the
-- screen and descriptor 1 is the terminal; as many rounds as there are bytes, and one, are enough.
pub cat_file :
    (o : Outside) (fd fuel : ℕ) (bytes buf : List ℕ) (m : Machine)
    → 2 ≤ fd
    → FileLeft (memory m.kernel) fd bytes m.kernel
    → length bytes < fuel
    → (m' : Machine) × (copy_file (kernel_system o) fuel (pos fd) buf m ≡ some (0, m'))
      × FileLeft (memory m.kernel) fd [] m'.kernel
      × (m'.kernel.console.screen ≡ put_all (visible bytes) m.kernel.console.screen)
cat_file o fd fuel bytes buf m h f enough =
    copy_file-shows (kernel_system o) (pos fd) (kernel_streams o (memory m.kernel) fd h) fuel bytes
      buf m enough f
