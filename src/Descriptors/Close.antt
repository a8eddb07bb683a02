-- ===== src/Descriptors/Close.antt =====
-- Well-formed descriptor arrays, `syscall_close`, and closing what was opened.
use my_linux_os.Common.{
  get_elem?_bound, suc, zero, ℕ, ◌≤◌, ◌<◌, ◌≡◌, refl, sym, ◌≢◌, ◌∙◌, ap, List, ◌∷◌, ◌++◌, Option,
  none, some, true, false, ◌||◌, ◌>>=◌, get_elem?, get_elem?-set_self, get_elem?-set_ne,
  get_elem?_in_range, set, length, length-set, Mem, arith,
}
use native.Mathlib.Decide.{ℕ_discrete, dec_lt}
use my_linux_os.Common.Int.{ℤ, pos, negsuc, minus_one, pos_part, ltb_ℤ}
use my_linux_os.Pcb.{OpsTable, rtc_ops, dir_ops, file_ops, Pcb, FileDescriptor, get_fd, set_fd}
use my_linux_os.Str.Length.{NoNul}
use my_linux_os.Str.Compare.{AreBytes}
use my_linux_os.FileSys.{FileSys, Dentry, filename_max_length, boot_size}
use my_linux_os.FileSys.Names.{HoldsBytes, Finds}
use my_linux_os.Descriptors.{close_fn, syscall_open, syscall_close}
use my_linux_os.Descriptors.Open.{
  Free, Allocates, taken, full, Opens, driver, at_start, unknown, known, syscall_open-Opens,
}

-- A descriptor is free, or it is in use with a table that a file can be closed through.
pub data Fits (d : FileDescriptor) : Type 0 where
  unused : d.flags ≡ 0 → Fits d
  used :
      (t : OpsTable) → d.flags ≡ 1 → d.file_ops_table ≡ some t → close_fn t ≡ some (pos 0) → Fits d

-- 8 descriptors, those from 2 on each free or in use for a file.
pub record IsWellFormed (p : Pcb) : Type 0 where
  pub size : length p.fd_array ≡ 8
  pub fits : (i : ℕ) (d : FileDescriptor) → 2 ≤ i → get_elem? p.fd_array i ≡ some d → Fits d

-- What `syscall_close` gives: it closes a descriptor from 2 to 7 that is in use, and refuses all else.
pub data Closes (p : Pcb) : ℤ → ℤ → Pcb → Type 0 where
  closed :
      (i : ℕ) (d : FileDescriptor)
      → 2 ≤ i
      → i < 8
      → get_elem? p.fd_array i ≡ some d
      → d.flags ≡ 1
      → Closes p (pos i) (pos 0) (record p {
        fd_array = set p.fd_array i (record d { flags = 0; inode = 0; file_pos = 0 });
      })
  refused : {fd : ℤ} → ((i : ℕ) → fd ≡ pos i → 2 ≤ i → i < 8 → Free p i) → Closes p fd minus_one p

pub some_injective : {A : Type 0} {a b : A} → some a ≡ some b → a ≡ b
some_injective {a} h = ap (λ o. elim o [ none ↦ a | some x ↦ x ]) h

pos_injective : {a b : ℕ} → pos a ≡ pos b → a ≡ b
pos_injective h = ap pos_part h

set-IsWellFormed :
    (p : Pcb) (i : ℕ) (d : FileDescriptor)
    → IsWellFormed p
    → Fits d
    → i < 8
    → IsWellFormed (record p { fd_array = set p.fd_array i d })
set-IsWellFormed p i d ok fit h = record {
  size = length-set p.fd_array i d ∙ ok.size;
  fits = λ j x two at. elim (ℕ_discrete i j) [
    | yes same ↦
        rw⁻¹
          (some_injective (
            sym (get_elem?-set_self p.fd_array i d (omega (arith, ok.size)))
            ∙ ap (λ k. get_elem? (set p.fd_array i d) k) same
            ∙ at))
          fit
    | no other ↦ ok.fits j x two (rw⁻¹ (get_elem?-set_ne p.fd_array i j d other) at)
  ];
}

at_start-Fits : (e : Dentry) (d : FileDescriptor) → e.kind ≤ 2 → Fits (at_start e d)
unfolding close_fn
at_start-Fits e d h = by_kind e.kind h
  where
    by_kind :
        (k : ℕ)
        → k ≤ 2
        → Fits (record {
          file_ops_table = driver k d.file_ops_table;
          inode = e.inode;
          file_pos = 0;
          flags = 1;
        })
    by_kind zero h = used rtc_ops refl refl refl
    by_kind (suc zero) h = used dir_ops refl refl refl
    by_kind (suc (suc zero)) h = used file_ops refl refl refl
    by_kind (suc (suc (suc n))) h = absurd (omega arith)

Allocates-IsWellFormed :
    (p : Pcb) (e : Dentry) (r : ℤ) (q : Pcb)
    → IsWellFormed p
    → e.kind ≤ 2
    → Allocates p e 2 8 r q
    → IsWellFormed q
Allocates-IsWellFormed p e r q ok kinds (full all) = ok
Allocates-IsWellFormed p e r q ok kinds (taken i d a b at free below) =
    set-IsWellFormed p i (at_start e d) ok (at_start-Fits e d kinds) b

Opens-IsWellFormed :
    (p : Pcb) (c : Option Dentry) (r : ℤ) (q : Pcb)
    → IsWellFormed p
    → ((e : Dentry) → c ≡ some e → e.kind ≤ 2)
    → Opens p c r q
    → IsWellFormed q
Opens-IsWellFormed p c r q ok kinds unknown = ok
Opens-IsWellFormed p c r q ok kinds (known {e} takes) =
    Allocates-IsWellFormed p e r q ok (kinds e refl) takes

in_files : (i : ℕ) → 2 ≤ i → i < 8 → (ltb_ℤ (pos i) (pos 2) || ltb_ℤ (pos 8) (pos i)) ≡ false
in_files i a b = ground arith

close_entry :
    (i : ℕ) (p : Pcb)
    → IsWellFormed p
    → 2 ≤ i
    → i < 8
    → (r : ℤ) × (q : Pcb) × (syscall_close (pos i) p ≡ some (r, q)) × Closes p (pos i) r q
unfolding syscall_close get_fd set_fd
close_entry i p ok a b =
    let (d, at) = get_elem?_in_range p.fd_array i (omega (arith, ok.size)) in
    close_as d at (ok.fits i d a at)
  where
    close_as :
        (d : FileDescriptor)
        → get_elem? p.fd_array i ≡ some d
        → Fits d
        → (r : ℤ) × (q : Pcb) × (syscall_close (pos i) p ≡ some (r, q)) × Closes p (pos i) r q
    close_as d at (unused f) = (
      minus_one,
      p,
      rw (in_files i a b, at, ◌>>=◌, f) refl,
      refused (λ j e l u. (d, ap (λ k. get_elem? p.fd_array k) (pos_injective (sym e)) ∙ at, f)),
    )
    close_as d at (used t f table closes) = (
      pos 0,
      record p { fd_array = set p.fd_array i (record d { flags = 0; inode = 0; file_pos = 0 }) },
      rw (in_files i a b, at, ◌>>=◌, f, table, closes) refl,
      closed i d a b at f,
    )

-- `syscall_open` of a name that is a string of 1 to 32 bytes, in a memory of bytes, by a process with
-- well-formed descriptors, when an entry that the lookup finds has type 0, 1 or 2: the call
-- returns, and it leaves the descriptors well-formed.
pub syscall_open-IsWellFormed :
    (m : Mem) (fs : FileSys) (s rest : List ℕ) (p : Pcb)
    → HoldsBytes m
    → AreBytes (s ++ 0 ∷ rest)
    → NoNul s
    → 0 < length s
    → length s ≤ filename_max_length
    → ((e : Dentry) → Finds m fs (s ++ 0 ∷ rest) 0 boot_size (some e) → e.kind ≤ 2)
    → IsWellFormed p
    → (r : ℤ) × (q : Pcb) × (syscall_open m fs (some (s ++ 0 ∷ rest)) p ≡ some (r, q))
      × IsWellFormed q
syscall_open-IsWellFormed m fs s rest p holds are nonul some_name short kinds ok =
    let (c, r, q, finds, run, opens) =
      syscall_open-Opens m fs s rest p holds are nonul some_name short ok.size in
    (r, q, run, Opens-IsWellFormed p c r q ok (λ e is. kinds e (rw⁻¹ is finds)) opens)

Closes-IsWellFormed :
    (p : Pcb) (fd r : ℤ) (q : Pcb) → IsWellFormed p → Closes p fd r q → IsWellFormed q
Closes-IsWellFormed p fd r q ok (closed i d a b at f) =
    set-IsWellFormed p i (record d { flags = 0; inode = 0; file_pos = 0 }) ok (unused refl) b
Closes-IsWellFormed p fd r q ok (refused free) = ok

below : (n : ℕ) (p : Pcb) → syscall_close (negsuc n) p ≡ some (minus_one, p)
unfolding syscall_close
below n p = ground arith

pos_not_negsuc : (i n : ℕ) → negsuc n ≢ pos i
pos_not_negsuc i n h = ground arith

past : (i : ℕ) → ¬ (i < 8) → i ≢ 8 → (ltb_ℤ (pos i) (pos 2) || ltb_ℤ (pos 8) (pos i)) ≡ true
past i h k = ground arith

out_of_files :
    (i : ℕ) (p : Pcb)
    → (ltb_ℤ (pos i) (pos 2) || ltb_ℤ (pos 8) (pos i)) ≡ true
    → syscall_close (pos i) p ≡ some (minus_one, p)
unfolding syscall_close
out_of_files i p h = rw (h) refl

-- `syscall_close` by a process with well-formed descriptors, for every number but 8: the call
-- returns and leaves the descriptors well-formed; a descriptor from 2 to 7 that is in use is freed,
-- its inode and position reset, with the result 0; every other number gives -1 and no change.
pub syscall_close-Closes :
    (fd : ℤ) (p : Pcb)
    → fd ≢ pos 8
    → IsWellFormed p
    → (r : ℤ) × (q : Pcb) × (syscall_close fd p ≡ some (r, q)) × Closes p fd r q × IsWellFormed q
syscall_close-Closes (negsuc n) p h ok =
    (minus_one, p, below n p, refused (λ i e a b. absurd (pos_not_negsuc i n e)), ok)
syscall_close-Closes (pos i) p h ok = elim (dec_lt i 2) [
  | yes low ↦ (
    minus_one,
    p,
    out_of_files i p (ground arith),
    refused (λ j e a b. absurd (omega (arith, pos_injective e))),
    ok,
  )
  | no a ↦ elim (dec_lt i 8) [
    | yes b ↦
        let (r, q, run, closes) = close_entry i p ok (omega arith) b in
        (r, q, run, closes, Closes-IsWellFormed p (pos i) r q ok closes)
    | no high ↦ (
      minus_one,
      p,
      out_of_files i p (past i high (λ e. h (ap pos e))),
      refused (λ j e a b. absurd (omega (arith, pos_injective e))),
      ok,
    )
  ]
]

-- Behind a close of a descriptor from 2 to 7, it is free.
pub Closes-Free : (p q : Pcb) (n : ℕ) (r : ℤ) → 2 ≤ n → n < 8 → Closes p (pos n) r q → Free q n
Closes-Free p _ n _ two slot (closed _ d _ _ at in_use) =
    let e = record d { flags = 0; inode = 0; file_pos = 0 } in
    (e, get_elem?-set_self p.fd_array n e (get_elem?_bound p.fd_array n d at), refl)
Closes-Free p _ n _ two slot (refused free) = free n refl two slot
