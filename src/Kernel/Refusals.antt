-- ===== src/Kernel/Refusals.antt =====
-- The calls of `syscall_read` and `syscall_write` that are refused.
use my_linux_os.Common.{
  ℕ, ◌≤◌, ◌<◌, ◌≡◌, refl, ap, ◌∙◌, inl, inr, List, [], Option, none, some, Bool, true, false, ◌||◌,
  ◌>>=◌, Bool-cases, get_elem?, arith,
}
use my_linux_os.Common.Int.{ℤ, pos, negsuc, minus_one, ltb_ℤ}
use my_linux_os.Pcb.{Pcb, FileDescriptor, get_fd}
use my_linux_os.Descriptors.{syscall_close}
use my_linux_os.Descriptors.Close.{IsWellFormed, Closes-Free, syscall_close-Closes}
use my_linux_os.Descriptors.Open.{Free}
use my_linux_os.Kernel.Blocks.{set_pcb_self}
use my_linux_os.Kernel.{with_pcb, Kernel, World, got, curr_pcb, syscall_read, syscall_write}

-- The calls of process `p` that do nothing: on no buffer, on a descriptor that is negative or above 8,
-- and on one that is closed.
pub data Refused (p : Pcb) : ℤ → Option (List ℕ) → Type 0 where
  null_buffer : (fd : ℤ) → Refused p fd none
  negative : (n : ℕ) (buf : Option (List ℕ)) → Refused p (negsuc n) buf
  too_large : (n : ℕ) (buf : Option (List ℕ)) → 8 < n → Refused p (pos n) buf
  closed :
      (n : ℕ) (d : FileDescriptor) (buf : Option (List ℕ))
      → n < 8
      → get_elem? p.fd_array n ≡ some d
      → d.flags ≡ 0
      → Refused p (pos n) buf

abbrev pub is_null : Option (List ℕ) → Bool
is_null none = true
is_null (some buf) = false

pub syscall_read-Refused :
    (w : World) (k : Kernel) (fd nbytes : ℤ) (buf : Option (List ℕ))
    → Refused (curr_pcb k) fd buf
    → syscall_read w fd (is_null buf) nbytes k ≡ some (got minus_one [] k)
unfolding syscall_read get_fd
syscall_read-Refused w k fd nbytes none r = refl
syscall_read-Refused w k _ nbytes (some buf) (negative n _) =
    let below : ltb_ℤ (negsuc n) (pos 0) ≡ true = ground arith in rw (below) refl
syscall_read-Refused w k _ nbytes (some buf) (too_large n _ h) =
    let above : (ltb_ℤ (pos n) (pos 0) || ltb_ℤ (pos 8) (pos n)) ≡ true = ground (arith, h) in
    rw (above) refl
syscall_read-Refused w k _ nbytes (some buf) (closed n d _ slot at shut) =
    let valid : (ltb_ℤ (pos n) (pos 0) || ltb_ℤ (pos 8) (pos n)) ≡ false = ground (arith, slot) in
    rw (valid, at, ◌>>=◌, shut) refl

or_last : (a b c : Bool) → c ≡ true → (a || (b || c)) ≡ true
or_last true b c h = refl
or_last false true c h = refl
or_last false false c h = h

pub syscall_write-Refused :
    (w : World) (k : Kernel) (fd nbytes : ℤ) (buf : Option (List ℕ))
    → Refused (curr_pcb k) fd buf
    → syscall_write w fd buf nbytes k ≡ some (minus_one, k)
unfolding syscall_write get_fd
syscall_write-Refused w k fd nbytes none r = refl
syscall_write-Refused w k _ nbytes (some buf) (negative n _) =
    let below : ltb_ℤ (negsuc n) (pos 0) ≡ true = ground arith in rw (below) refl
syscall_write-Refused w k _ nbytes (some buf) (too_large n _ h) =
    let above : ltb_ℤ (pos 8) (pos n) ≡ true = ground (arith, h) in
    rw (or_last (ltb_ℤ (pos n) (pos 0)) (ltb_ℤ nbytes (pos 0)) (ltb_ℤ (pos 8) (pos n)) above) refl
syscall_write-Refused w k _ nbytes (some buf) (closed n d _ slot at shut) =
    let low : ltb_ℤ (pos n) (pos 0) ≡ false = ground arith in
    let fits : ltb_ℤ (pos 8) (pos n) ≡ false = ground (arith, slot) in
    elim (Bool-cases (ltb_ℤ nbytes (pos 0))) [
      | inl e ↦ rw (e, low) refl
      | inr e ↦ rw (e, low, fits, at, ◌>>=◌, shut) refl
    ]

close_again :
    (q : Pcb) (n : ℕ) → 2 ≤ n → n < 8 → Free q n → syscall_close (pos n) q ≡ some (minus_one, q)
unfolding syscall_close get_fd
close_again q n two slot (d, at, shut) =
    let inside : (ltb_ℤ (pos n) (pos 2) || ltb_ℤ (pos 8) (pos n)) ≡ false =
      ground (arith, two, slot) in
    rw (inside, at, ◌>>=◌, shut) refl

-- In a process with well-formed descriptors, behind a `syscall_close` of a descriptor from 2 to 7,
-- whether it was in use or not, a read from it, a write to it and a second close of it return -1
-- and change nothing, whatever the buffer and the length.
pub syscall_close-Refused :
    (w : World) (k : Kernel) (n : ℕ) (nbytes : ℤ) (buf : Option (List ℕ))
    → 2 ≤ n
    → n < 8
    → IsWellFormed (curr_pcb k)
    → (r : ℤ) × (q : Pcb) × (syscall_close (pos n) (curr_pcb k) ≡ some (r, q))
      × (syscall_read w (pos n) (is_null buf) nbytes (with_pcb q k)
          ≡ some (got minus_one [] (with_pcb q k)))
      × (syscall_write w (pos n) buf nbytes (with_pcb q k) ≡ some (minus_one, with_pcb q k))
      × (syscall_close (pos n) q ≡ some (minus_one, q))
syscall_close-Refused w k n nbytes buf two slot ok =
    let (r, q, run, closes, _) =
      syscall_close-Closes (pos n) (curr_pcb k) (λ e. absurd (ground (arith, e, slot))) ok in
    let (d, at, shut) = Closes-Free (curr_pcb k) q n r two slot closes in
    let here : get_elem? (curr_pcb (with_pcb q k)).fd_array n ≡ some d =
      ap (λ (p : Pcb). get_elem? p.fd_array n) (set_pcb_self k.pid q k.pcbs) ∙ at in
    let no : Refused (curr_pcb (with_pcb q k)) (pos n) buf = closed n d buf slot here shut in
    (
      r,
      q,
      run,
      syscall_read-Refused w (with_pcb q k) (pos n) nbytes buf no,
      syscall_write-Refused w (with_pcb q k) (pos n) nbytes buf no,
      close_again q n two slot (d, at, shut),
    )
