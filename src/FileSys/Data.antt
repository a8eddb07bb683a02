-- ===== src/FileSys/Data.antt =====
-- `read_data` against random access to the file's blocks.
use my_linux_os.Common.{
  ℕ, zero, suc, ◌+◌, ◌-◌, ◌*◌, ◌/◌, ◌%◌, ◌^◌, ◌≤◌, ◌<◌, min, ◌≡◌, refl, ap, ◌≢◌, List, [], ◌∷◌,
  ◌++◌, Bool, true, false, arith, length, leb, ◌==◌, if◌then◌else◌, Bool-cases, ◌⊎◌, inl, inr, Mem,
}
use my_linux_os.Common.Int.{pos, minus_one, signed32}
use my_linux_os.FileSys.{
  FileSys, read_data, read_loop, block_byte, block_4kb, file_length, total_inodes,
}

-- Byte `k` of a file: byte `k % 4096` of the block in slot `k / 4096`.
abbrev pub file_byte : Mem → FileSys → ℕ → ℕ → ℕ
file_byte m fs inode k = block_byte m fs inode (k / block_4kb) (k % block_4kb)

-- The `n` bytes of a file from byte `k` on.
abbrev pub file_bytes : Mem → FileSys → ℕ → ℕ → ℕ → List ℕ
file_bytes m fs inode k zero = []
file_bytes m fs inode k (suc n) = file_byte m fs inode k ∷ file_bytes m fs inode (k + 1) n

-- How many bytes a read of `len` at `offset` can give.
abbrev pub available : Mem → FileSys → ℕ → ℕ → ℕ → ℕ
available m fs inode offset len = min len (file_length m fs inode - offset)

pub length-file_bytes :
    (m : Mem) (fs : FileSys) (inode k n : ℕ) → length (file_bytes m fs inode k n) ≡ n
length-file_bytes m fs inode k zero = refl
length-file_bytes m fs inode k (suc n) = ap suc (length-file_bytes m fs inode (k + 1) n)

module _ (m : Mem) (fs : FileSys) (inode : ℕ) where
  -- The loop walks the slots as division and remainder by the block size do. Its second index may
  -- stand one past a block: then the next round moves to the next slot.
  read_loop_lem :
      (n at slot offset : ℕ)
      → at + n ≤ 2 ^ 32
      → slot * block_4kb + offset ≡ at
      → offset ≤ block_4kb
      → read_loop m fs inode n at slot offset
        ≡ file_bytes m fs inode at (min n (file_length m fs inode - at))
  unfolding read_loop
  read_loop_lem zero at slot offset hw hs ho =
      let nothing : min 0 (file_length m fs inode - at) ≡ 0 = omega arith in rw nothing
  read_loop_lem (suc n) at slot offset hw hs ho =
      elim (Bool-cases (leb (file_length m fs inode) (at % 2 ^ 32))) [
        | inl past ↦
            let none_left : min (suc n) (file_length m fs inode - at) ≡ 0 = ground arith in
            rw (none_left, past, read_loop)
        | inr more ↦
            let left : min (suc n) (file_length m fs inode - at)
                ≡ suc (min n (file_length m fs inode - (at + 1))) =
              ground arith in
            rw (left, more, read_loop)
              (elim (Bool-cases (leb block_4kb offset)) [
                | inl next ↦
                    let slot_is : at / block_4kb ≡ slot + 1 = ground arith in
                    let offset_is : at % block_4kb ≡ 0 = ground arith in
                    rw (next, slot_is, offset_is)
                      (ap (◌∷◌ (block_byte m fs inode (slot + 1) 0)) (
                        read_loop_lem n (at + 1) (slot + 1) (0 + 1) (omega arith) (ground arith)
                          (omega arith)))
                | inr same ↦
                    let slot_is : at / block_4kb ≡ slot = ground arith in
                    let offset_is : at % block_4kb ≡ offset = ground arith in
                    rw (same, slot_is, offset_is)
                      (ap (◌∷◌ (block_byte m fs inode slot offset)) (
                        read_loop_lem n (at + 1) slot (offset + 1) (omega arith) (ground arith)
                          (ground arith)))
              ])
      ]

  -- On a file with an inode number other than 0 and inside the inode table, a read to a buffer that is
  -- not null and that does not pass the end of the 32-bit
  -- offsets returns the number of bytes up to the requested length or the end of the file, and
  -- stores exactly those bytes of the file, in whatever blocks they lie.
  pub read_data_lem :
      (offset len : ℕ)
      → inode ≢ 0
      → inode < total_inodes m fs
      → offset + len ≤ 2 ^ 32
      → let n = available m fs inode offset len in
        read_data m fs inode offset false len ≡ (signed32 n, file_bytes m fs inode offset n)
  unfolding read_data
  read_data_lem offset len hi ht hw = ground (
    arith,
    length-file_bytes m fs inode offset (available m fs inode offset len),
    read_loop_lem len offset (offset / block_4kb) (offset % block_4kb) hw (omega arith)
        (omega arith),
  )

  -- A read of length 0 returns 0; any other with inode 0, an inode past the table or a null buffer
  -- returns -1. Neither stores anything.
  read_data_refuses :
      (offset len : ℕ) (null : Bool)
      → (len ≡ 0) ⊎ ((inode ≡ 0) ⊎ ((null ≡ true) ⊎ (total_inodes m fs ≤ inode)))
      → read_data m fs inode offset null len ≡ ((if len == 0 then pos 0 else minus_one), [])
  unfolding read_data
  read_data_refuses offset len null h = ground arith

  pub file_bytes-append :
      (k a b : ℕ)
      → file_bytes m fs inode k a ++ file_bytes m fs inode (k + a) b
        ≡ file_bytes m fs inode k (a + b)
  file_bytes-append k zero b =
      let here : k + 0 ≡ k = omega arith in let count : 0 + b ≡ b = omega arith in rw (here, count)
  file_bytes-append k (suc a) b =
      let here : k + suc a ≡ k + 1 + a = omega arith in
      let count : suc a + b ≡ suc (a + b) = omega arith in
      rw (here, count) (ap (◌∷◌ (file_byte m fs inode k)) (file_bytes-append (k + 1) a b))
