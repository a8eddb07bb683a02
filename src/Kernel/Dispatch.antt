-- ===== src/Kernel/Dispatch.antt =====
-- `syscall_read` of an open file, which is the list of the bytes that are left to read.
use my_linux_os.Common.{
  ℕ, zero, suc, ◌+◌, ◌-◌, ◌^◌, ◌≤◌, ◌<◌, min, ◌≡◌, ◌≢◌, refl, sym, ap, ap₂, ◌∙◌, List, [], ◌∷◌,
  some, false, ◌||◌, ◌>>=◌, get_elem?, set, take, drop, length, arith, ne→==, Mem,
}
use my_linux_os.Common.Int.{ℤ, pos, ltb_ℤ}
use my_linux_os.Pcb.{Pcb, FileDescriptor, OpsTable, file_ops, get_fd, set_fd}
use my_linux_os.FileSys.{FileSys, file_length, total_inodes}
use my_linux_os.FileSys.Data.{file_byte, file_bytes, available, length-file_bytes}
use my_linux_os.FileSys.Read.{CanRead, file_read_lem}
use my_linux_os.Kernel.Blocks.{set_pcb_self}
use my_linux_os.Kernel.{
  Kernel, World, got, memory, curr_pcb, with_pcb, read_fn, write_fn, syscall_read, syscall_write,
}

zero_min : (a : ℕ) → 0 ≡ min 0 a
zero_min a = omega arith

min_zero : (n : ℕ) → 0 ≡ min (suc n) 0
min_zero n = omega arith

suc-min : (n a : ℕ) → suc (min n a) ≡ min (suc n) (suc a)
suc-min n a = omega arith

stays : (k a : ℕ) → k ≡ k + min 0 a
stays k a = omega arith

all_left : (a : ℕ) → a ≡ a - min 0 a
all_left a = omega arith

no_bytes : (k n : ℕ) → k ≡ k + min (suc n) 0
no_bytes k n = omega arith

none_left : (n : ℕ) → 0 ≡ 0 - min (suc n) 0
none_left n = omega arith

one_on : (k n a : ℕ) → k + 1 + min n a ≡ k + min (suc n) (suc a)
one_on k n a = omega arith

one_less : (n a : ℕ) → a - min n a ≡ suc a - min (suc n) (suc a)
one_less n a = omega arith

module _ (m : Mem) (fs : FileSys) (inode : ℕ) where
  take-file_bytes :
      (n k a : ℕ) → take n (file_bytes m fs inode k a) ≡ file_bytes m fs inode k (min n a)
  take-file_bytes zero k a = ap (file_bytes m fs inode k) (zero_min a)
  take-file_bytes (suc n) k zero = ap (file_bytes m fs inode k) (min_zero n)
  take-file_bytes (suc n) k (suc a) =
      ap (◌∷◌ (file_byte m fs inode k)) (take-file_bytes n (k + 1) a)
      ∙ ap (file_bytes m fs inode k) (suc-min n a)

  drop-file_bytes :
      (n k a : ℕ)
      → drop n (file_bytes m fs inode k a) ≡ file_bytes m fs inode (k + min n a) (a - min n a)
  drop-file_bytes zero k a = ap₂ (file_bytes m fs inode) (stays k a) (all_left a)
  drop-file_bytes (suc n) k zero = ap₂ (file_bytes m fs inode) (no_bytes k n) (none_left n)
  drop-file_bytes (suc n) k (suc a) =
      drop-file_bytes n (k + 1) a ∙ ap₂ (file_bytes m fs inode) (one_on k n a) (one_less n a)

-- Descriptor `fd` of the calling process is open on a file of the image.
pub record OpenFile (k : Kernel) (fd : ℕ) (d : FileDescriptor) : Type 0 where
  pub at : get_elem? (curr_pcb k).fd_array fd ≡ some d
  pub slot : fd < 8
  pub in_use : d.flags ≢ 0
  pub table : d.file_ops_table ≡ some file_ops
  pub not_zero : d.inode ≢ 0
  pub in_table : d.inode < total_inodes (memory k) k.fs
  pub small : file_length (memory k) k.fs d.inode < 2 ^ 30
  pub position : d.file_pos ≤ file_length (memory k) k.fs d.inode

-- The bytes of the file behind the descriptor's position.
abbrev pub remaining : Kernel → FileDescriptor → List ℕ
remaining k d =
    file_bytes (memory k) k.fs d.inode d.file_pos (file_length (memory k) k.fs d.inode - d.file_pos)

-- The kernel when a descriptor of the caller has moved on by `n` bytes.
abbrev pub moved : ℕ → FileDescriptor → ℕ → Kernel → Kernel
moved fd d n k =
    with_pcb
      (record (curr_pcb k) {
        fd_array = set (curr_pcb k).fd_array fd (record d { file_pos = d.file_pos + n });
      })
      k

-- A read from 0 to 7 of a descriptor that is open is the read of its jump table.
pub syscall_read-table :
    (w : World) (k : Kernel) (fd : ℕ) (n : ℤ) (d : FileDescriptor) (t : OpsTable)
    → fd < 8
    → get_elem? (curr_pcb k).fd_array fd ≡ some d
    → d.flags ≢ 0
    → d.file_ops_table ≡ some t
    → syscall_read w (pos fd) false n k ≡ read_fn t w (pos fd) false n k
unfolding syscall_read get_fd
syscall_read-table w k fd n d t slot at in_use table =
    let valid : (ltb_ℤ (pos fd) (pos 0) || ltb_ℤ (pos 8) (pos fd)) ≡ false = ground (arith, slot) in
    rw (valid, at, ◌>>=◌, ne→== d.flags 0 in_use)
      (ap (λ o. o >>= λ table. read_fn table w (pos fd) false n k) table)

-- The same for a write of a number of bytes that is not negative.
pub syscall_write-table :
    (w : World) (k : Kernel) (fd n : ℕ) (buf : List ℕ) (d : FileDescriptor) (t : OpsTable)
    → fd < 8
    → get_elem? (curr_pcb k).fd_array fd ≡ some d
    → d.flags ≢ 0
    → d.file_ops_table ≡ some t
    → syscall_write w (pos fd) (some buf) (pos n) k ≡ write_fn t w buf (pos n) k
unfolding syscall_write get_fd
syscall_write-table w k fd n buf d t slot at in_use table =
    let valid : (ltb_ℤ (pos fd) (pos 0) || (ltb_ℤ (pos n) (pos 0) || ltb_ℤ (pos 8) (pos fd)))
        ≡ false =
      ground (arith, slot) in
    rw (valid, at, ◌>>=◌, ne→== d.flags 0 in_use)
      (ap (λ o. o >>= λ table. write_fn table w buf (pos n) k) table)

get_elem?-set_at {ℓ} :
    {A : Type ℓ} (xs : List A) (i : ℕ) (u v : A)
    → get_elem? xs i ≡ some u
    → get_elem? (set xs i v) i ≡ some v
get_elem?-set_at [] i u v h = absurd (ground (arith, h))
get_elem?-set_at (x ∷ xs) zero u v h = refl
get_elem?-set_at (x ∷ xs) (suc i) u v h = get_elem?-set_at xs i u v h

pub moved_at :
    (k : Kernel) (fd n : ℕ) (d : FileDescriptor)
    → get_elem? (curr_pcb k).fd_array fd ≡ some d
    → get_elem? (curr_pcb (moved fd d n k)).fd_array fd
      ≡ some (record d { file_pos = d.file_pos + n })
moved_at k fd n d at =
    ap (λ (p : Pcb). get_elem? p.fd_array fd) (set_pcb_self k.pid _ k.pcbs)
    ∙ get_elem?-set_at (curr_pcb k).fd_array fd d _ at

still_OpenFile :
    (k : Kernel) (fd n : ℕ) (d : FileDescriptor)
    → OpenFile k fd d
    → d.file_pos + n ≤ file_length (memory k) k.fs d.inode
    → OpenFile (moved fd d n k) fd (record d { file_pos = d.file_pos + n })
still_OpenFile k fd n d o h = record {
  at = moved_at k fd n d o.at;
  slot = o.slot;
  in_use = o.in_use;
  table = o.table;
  not_zero = o.not_zero;
  in_table = o.in_table;
  small = o.small;
  position = h;
}

-- What is left behind `n` bytes.
after : (l p n : ℕ) → l - (p + min n (l - p)) ≡ l - p - min n (l - p)
after l p n = omega arith

syscall_read-moved :
    (w : World) (k : Kernel) (fd n : ℕ) (d : FileDescriptor)
    → OpenFile k fd d
    → n < 2 ^ 30
    → let c = available (memory k) k.fs d.inode d.file_pos n in
      syscall_read w (pos fd) false (pos n) k
      ≡ some (got (pos c) (file_bytes (memory k) k.fs d.inode d.file_pos c) (moved fd d c k))
unfolding read_fn set_fd get_fd
syscall_read-moved w k fd n d o h =
    let c : CanRead (memory k) k.fs (curr_pcb k) fd d n = record {
      opened = o.at;
      slot = omega (arith, o.slot);
      not_zero = o.not_zero;
      in_table = o.in_table;
      small = omega (arith, o.position, o.small);
    } in
    syscall_read-table w k fd (pos n) d file_ops o.slot o.at o.in_use o.table
    ∙ ap (λ r. r >>= λ r. some (got r.0 r.1 (with_pcb r.2 k)))
        (file_read_lem (memory k) k.fs (curr_pcb k) fd d n c)

-- The same with the kernel that it leaves written out.
pub syscall_read-advanced :
    (w : World) (k : Kernel) (fd n : ℕ) (d : FileDescriptor)
    → OpenFile k fd d
    → n < 2 ^ 30
    → let c = available (memory k) k.fs d.inode d.file_pos n in
      (syscall_read w (pos fd) false (pos n) k
        ≡ some
            (got (pos (length (take n (remaining k d)))) (take n (remaining k d)) (moved fd d c k)))
      × OpenFile (moved fd d c k) fd (record d { file_pos = d.file_pos + c })
      × (remaining (moved fd d c k) (record d { file_pos = d.file_pos + c })
          ≡ drop n (remaining k d))
syscall_read-advanced w k fd n d o h =
    let m = memory k in
    let c : ℕ = available m k.fs d.inode d.file_pos n in
    let bytes : take n (remaining k d) ≡ file_bytes m k.fs d.inode d.file_pos c =
      take-file_bytes m k.fs d.inode n d.file_pos (file_length m k.fs d.inode - d.file_pos) in
    let left : drop n (remaining k d)
        ≡ file_bytes m k.fs d.inode (d.file_pos + c) (file_length m k.fs d.inode - d.file_pos - c) =
      drop-file_bytes m k.fs d.inode n d.file_pos (file_length m k.fs d.inode - d.file_pos) in
    let count : length (take n (remaining k d)) ≡ c =
      ap length bytes ∙ length-file_bytes m k.fs d.inode d.file_pos c in
    (
      syscall_read-moved w k fd n d o h
          ∙ ap₂ (λ (z : ℕ) (out : List ℕ). some (got (pos z) out (moved fd d c k))) (sym count)
              (sym bytes),
      still_OpenFile k fd c d o (omega (arith, o.position)),
      ap (file_bytes m k.fs d.inode (d.file_pos + c))
            (after (file_length m k.fs d.inode) d.file_pos n)
          ∙ sym left,
    )

-- An open file, read through `syscall_read`, is the list of the bytes left to read: a read of `n` bytes
-- stores the first `n` of them, or all if they are fewer, returns how many, and leaves the rest to
-- read. It is so in an image whose file is shorter than 2^30 bytes, for `n` below 2^30.
pub syscall_read-remaining :
    (w : World) (k : Kernel) (fd n : ℕ) (d : FileDescriptor)
    → OpenFile k fd d
    → n < 2 ^ 30
    → (k' : Kernel) × (d' : FileDescriptor) × (syscall_read w (pos fd) false (pos n) k
        ≡ some (got (pos (length (take n (remaining k d)))) (take n (remaining k d)) k'))
      × OpenFile k' fd d'
      × (remaining k' d' ≡ drop n (remaining k d))
syscall_read-remaining w k fd n d o h =
    let c : ℕ = available (memory k) k.fs d.inode d.file_pos n in
    let (is, opened, left) = syscall_read-advanced w k fd n d o h in
    (moved fd d c k, record d { file_pos = d.file_pos + c }, is, opened, left)
