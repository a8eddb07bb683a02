-- ===== src/FileSys.antt =====
-- student-distrib/filesys.c: the read-only file system in an image in memory. The image is read
-- through `Mem`, so an index past a table reads what stands behind it, as the C code does.
pub mod Data
pub mod Apart
pub mod Names
pub mod Read
mod Tests
use my_linux_os.Common.{
  ℕ, zero, suc, ◌+◌, ◌-◌, ◌*◌, ◌/◌, ◌%◌, ◌^◌, List, [], ◌∷◌, ◌++◌, Option, none, some, Bool, true,
  false, ◌||◌, ◌==◌, ltb, leb, if◌then◌else◌, ◌>>=◌, length, Mem, bytes, word,
}
use my_linux_os.Common.Int.{ℤ, pos, negsuc, minus_one, ltb_ℤ, eqb_ℤ, signed32, unsigned32}
use my_linux_os.Str.{strlen, strncmp}
use my_linux_os.Pcb.{Pcb, FileDescriptor, get_fd, set_fd}

abbrev pub block_4kb : ℕ
block_4kb = 4096

-- The loop bound of `read_dentry_by_name`.
abbrev pub boot_size : ℕ
boot_size = 64

abbrev pub filename_max_length : ℕ
filename_max_length = 32

abbrev pub max_num_fd : ℕ
max_num_fd = 8

-- Pointers are 32 bits wide.
abbrev pub addr : ℕ → ℕ
addr a = a % 2 ^ 32

-- `dentry_t`
pub record Dentry : Type 0 where
  pub file_name : List ℕ
  pub kind : ℕ
  pub inode : ℕ
  pub reserved : List ℕ

-- The globals that `initialise_filesys` sets. `boot` points where `filesys` does.
pub record FileSys : Type 0 where
  pub filesys : ℕ
  pub boot : ℕ
  pub inode_ptr : ℕ
  pub den_ptr : ℕ
  pub num_dir : ℕ

-- `&((inode_t*)filesys)[1]` is one block on, `&((dentry_t*)boot)[1]` 64 bytes.
unfoldable pub initialise_filesys : Mem → ℕ → FileSys
initialise_filesys m fs = record {
  filesys = fs;
  boot = fs;
  inode_ptr = addr (fs + block_4kb);
  den_ptr = addr (fs + 64);
  num_dir = word m fs;
}

-- The counts of `boot_blk_t`.
abbrev pub total_dentries : Mem → FileSys → ℕ
total_dentries m fs = word m fs.boot

abbrev pub total_inodes : Mem → FileSys → ℕ
total_inodes m fs = word m (addr (fs.boot + 4))

-- The entry at an address.
unfoldable pub dentry_at : Mem → ℕ → Dentry
dentry_at m a = record {
  file_name = bytes m a filename_max_length;
  kind = word m (a + 32);
  inode = word m (a + 36);
  reserved = bytes m (a + 40) 24;
}

-- `den_ptr[i]`
abbrev pub den_addr : FileSys → ℕ → ℕ
den_addr fs i = addr (fs.den_ptr + 64 * i)

-- The loop of `read_dentry_by_name` from index `i` on, with `n` rounds left. The inner `none` is
-- the end of the loop, where the function returns -1.
unfoldable pub find_dentry : Mem → FileSys → List ℕ → ℕ → ℕ → Option (Option Dentry)
find_dentry m fs fname zero i = some none
find_dentry m fs fname (suc n) i =
    let rest = find_dentry m fs fname n (i + 1) in
    strncmp fname (bytes m (den_addr fs i) filename_max_length) filename_max_length >>= λ z.
    if eqb_ℤ z (pos 0) then some (some (dentry_at m (den_addr fs i))) else rest

-- `read_dentry_by_name`; the name is `none` for a null pointer. `some (some d)` is a return of 0
-- with `d` filled in, `some none` one of -1.
unfoldable pub read_dentry_by_name : Mem → FileSys → Option (List ℕ) → Option (Option Dentry)
unfolding find_dentry
read_dentry_by_name m fs none = some none
read_dentry_by_name m fs (some fname) = strlen fname >>= λ n.
    if ltb filename_max_length n then some none else find_dentry m fs fname boot_size 0

-- `read_dentry_by_index`; `none` is a return of -1. `boot->dentries` starts 64 bytes into the block.
unfoldable pub read_dentry_by_index : Mem → FileSys → ℕ → Option Dentry
read_dentry_by_index m fs index =
    if ltb (total_dentries m fs) index
    then none
    else some (dentry_at m (addr (fs.boot + 64 + 64 * index)))

-- `curr_inode`
abbrev pub inode_addr : FileSys → ℕ → ℕ
inode_addr fs inode = addr (fs.boot + (inode + 1) * block_4kb)

-- `data_start`
abbrev pub data_start : Mem → FileSys → ℕ
data_start m fs = addr (fs.boot + (total_inodes m fs + 1) * block_4kb)

-- `curr_inode->length`
abbrev pub file_length : Mem → FileSys → ℕ → ℕ
file_length m fs inode = word m (inode_addr fs inode)

-- The byte at `offset` of the block in slot `slot` of the inode's table.
abbrev pub block_byte : Mem → FileSys → ℕ → ℕ → ℕ → ℕ
block_byte m fs inode slot offset = m (
    addr
      (data_start m fs + word m (addr (inode_addr fs inode + 4 + 4 * slot)) * block_4kb + offset))

-- The loop of `read_data`, with `n` rounds left: the bytes that it stores in the buffer. `at` is
-- `offset + i`, and the last two are `dblock_location` and `dblock_data_location`.
unfoldable pub read_loop : Mem → FileSys → ℕ → ℕ → ℕ → ℕ → ℕ → List ℕ
read_loop m fs inode zero at slot offset = []
read_loop m fs inode (suc n) at slot offset = elim (leb (file_length m fs inode) (at % 2 ^ 32)) [
  | true ↦ []
  | false ↦
      let slot' = if leb block_4kb offset then slot + 1 else slot in
      let offset' = if leb block_4kb offset then 0 else offset in
      block_byte m fs inode slot' offset' ∷ read_loop m fs inode n (at + 1) slot' (offset' + 1)
]

-- `read_data`: the return value, and the bytes stored from `buf` on. `null` says that `buf` is null.
unfoldable pub read_data : Mem → FileSys → ℕ → ℕ → Bool → ℕ → ℤ × List ℕ
unfolding read_loop
read_data m fs inode offset null len =
    if len == 0
    then (pos 0, [])
    else (if inode == 0 || (null || leb (total_inodes m fs) inode)
        then (minus_one, [])
        else (let out = read_loop m fs inode len offset (offset / block_4kb) (offset % block_4kb) in
            (signed32 (length out), out)))

-- `file_read`: the return value, the bytes stored from `buf` on and the process with its moved file
-- position.
unfoldable pub file_read : Mem → FileSys → Pcb → ℤ → Bool → ℤ → Option (ℤ × List ℕ × Pcb)
unfolding read_data get_fd set_fd
file_read m fs pcb fname null nbytes =
    if null || (ltb_ℤ nbytes (pos 0) || (ltb_ℤ fname (pos 0) || ltb_ℤ (pos max_num_fd) fname))
    then some (minus_one, [], pcb)
    else (get_fd pcb fname >>= λ d.
        let (numread, out) = read_data m fs d.inode d.file_pos null (unsigned32 nbytes) in
        if eqb_ℤ numread minus_one
        then some (minus_one, out, pcb)
        else some (
          numread,
          out,
          set_fd pcb fname (record d { file_pos = (d.file_pos + unsigned32 numread) % 2 ^ 32 }),
        ))

-- The bytes of a 32-bit word in memory.
abbrev pub word_bytes : ℕ → List ℕ
word_bytes w = w % 256 ∷ w / 256 % 256 ∷ w / 65536 % 256 ∷ w / 16777216 % 256 ∷ []

-- `strlen((int8_t*)(dentry.file_name))`, cut down to 32 bytes: it runs from the name into the fields
-- behind it if the name fills its 32 bytes.
unfoldable pub name_length : Dentry → Option ℕ
name_length e =
    strlen (e.file_name ++ (word_bytes e.kind ++ (word_bytes e.inode ++ e.reserved))) >>= λ n.
    some (if ltb filename_max_length n then filename_max_length else n)

-- `dir_read`: `memcpy` stores 32 bytes, whatever `nbytes` is.
unfoldable pub dir_read : Mem → FileSys → Pcb → ℤ → Option (ℤ × List ℕ × Pcb)
dir_read m fs pcb fd = get_fd pcb fd >>= λ d. elim (read_dentry_by_index m fs d.file_pos) [
  | none ↦ some (minus_one, [], pcb)
  | some e ↦ name_length e >>= λ n.
      some (pos n, e.file_name, set_fd pcb fd (record d { file_pos = (d.file_pos + 1) % 2 ^ 32 }))
]

-- The operations that ignore their arguments; the file system is read-only.
abbrev pub file_open : ℤ
file_open = pos 0

abbrev pub file_close : ℤ
file_close = pos 0

abbrev pub file_write : ℤ
file_write = minus_one

abbrev pub dir_open : ℤ
dir_open = pos 0

abbrev pub dir_close : ℤ
dir_close = pos 0

abbrev pub dir_write : ℤ
dir_write = minus_one
