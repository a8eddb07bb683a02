-- ===== src/Process/Claim.antt =====
-- The first two steps of `syscall_execute`: the process number and the control block.
use my_linux_os.Common.{
  ℕ, zero, suc, ◌+◌, ◌<◌, ◌≡◌, ◌≢◌, refl, subst, ap, ◌∙◌, ◌⊎◌, inl, inr, List, [], ◌∷◌, Option,
  none, some, ◌==◌, if◌then◌else◌, ◌>>=◌, get_elem?, set, arith, ne→==,
}
use native.Mathlib.Decide.{ℕ_discrete, dec_lt}
use my_linux_os.Pcb.{Pcb}
use my_linux_os.Terminal.{Console}
use my_linux_os.Command.{parse_command}
use my_linux_os.Kernel.Blocks.{set_pcb_self}
use my_linux_os.Kernel.{Kernel, set_pcb}
use my_linux_os.Process.{
  Frame, find_pid, claim_pid, count_process, find_and_load, syscall_execute, stdin_entry,
  stdout_entry,
}

-- Number `i` is the lowest free one of six.
pub record LowestFree (used : List ℕ) (i : ℕ) : Type 0 where
  pub below_limit : i < 6
  pub free : get_elem? used i ≡ some 0
  pub taken : (j : ℕ) → j < i → get_elem? used j ≢ some 0

-- What a search from `base` on finds in the rest of the table.
data Search (used : List ℕ) (base n : ℕ) : Option ℕ → Type 0 where
  at :
      (d : ℕ)
      → d < n
      → get_elem? used d ≡ some 0
      → ((j : ℕ) → j < d → get_elem? used j ≢ some 0)
      → Search used base n (some (base + d))
  nowhere : ((j : ℕ) → j < n → get_elem? used j ≢ some 0) → Search used base n none

step_Search :
    (n base u : ℕ) (used : List ℕ) (r : Option ℕ)
    → u ≢ 0
    → Search used (base + 1) n r
    → Search (u ∷ used) base (suc n) r
step_Search n base u used r busy (at d small free taken) =
    rw (shift base d) (at (suc d) (omega arith) free below)
  where
    shift : (base d : ℕ) → base + 1 + d ≡ base + suc d
    shift base d = omega arith

    below : (j : ℕ) → j < suc d → get_elem? (u ∷ used) j ≢ some 0
    below zero h e = ground arith
    below (suc j) h e = taken j (omega arith) e
step_Search n base u used r busy (nowhere taken) = nowhere all
  where
    all : (j : ℕ) → j < suc n → get_elem? (u ∷ used) j ≢ some 0
    all zero h e = ground arith
    all (suc j) h e = taken j (omega arith) e

add_zero : (n : ℕ) → n + 0 ≡ n
add_zero n = omega arith

find_pid-Search : (n base : ℕ) (used : List ℕ) → Search used base n (find_pid n base used)
unfolding find_pid
find_pid-Search zero base used = nowhere (λ j h e. absurd (omega arith))
find_pid-Search (suc n) base [] = nowhere (λ j h e. ground arith)
find_pid-Search (suc n) base (u ∷ used) = elim (ℕ_discrete u 0) [
  | yes free ↦ rw (free) (
      subst (λ b. Search (0 ∷ used) base (suc n) (some b)) (add_zero base)
        (at 0 (omega arith) refl (λ j h e. absurd (omega arith))))
  | no busy ↦ rw (ne→== u 0 busy) (
      step_Search n base u used (find_pid n (base + 1) used) busy
        (find_pid-Search n (base + 1) used))
]

pub find_pid-LowestFree :
    (used : List ℕ)
    → let r = find_pid 6 0 used in
      ((r ≡ none) × ((j : ℕ) → j < 6 → get_elem? used j ≢ some 0))
      ⊎ ((i : ℕ) × (r ≡ some i) × LowestFree used i)
find_pid-LowestFree used = by_result (find_pid 6 0 used) (find_pid-Search 6 0 used)
  where
    by_result :
        (r : Option ℕ)
        → Search used 0 6 r
        → ((r ≡ none) × ((j : ℕ) → j < 6 → get_elem? used j ≢ some 0))
          ⊎ ((i : ℕ) × (r ≡ some i) × LowestFree used i)
    by_result r (at d small free taken) =
        inr (d, ap some (omega arith), record { below_limit = small; free = free; taken = taken })
    by_result r (nowhere taken) = inl (refl, taken)

-- The kernel when the number `i` is claimed, with the terminals `c` and the arguments `args`.
abbrev pub started : ℕ → Console → List ℕ → Kernel → Kernel
started i c args k =
    let p = k.pcbs i in
    let fresh = record p {
      pid = i;
      parent_pid = (if i == 0 then 0 else k.parent_pid);
      fd_array = set (set p.fd_array 0 stdin_entry) 1 stdout_entry;
    } in
    record k {
      pid_array = set k.pid_array i 1;
      pid = i;
      parent_pid = (if i == 0 then k.parent_pid else i);
      console = c;
      pcbs = set_pcb i (record (set_pcb i fresh k.pcbs i) { args = args }) (set_pcb i fresh k.pcbs);
    }

-- The control block that the claim leaves.
abbrev pub claimed_pcb : ℕ → List ℕ → Kernel → Pcb
claimed_pcb i args k = record (k.pcbs i) {
  pid = i;
  parent_pid = (if i == 0 then 0 else k.parent_pid);
  fd_array = set (set (k.pcbs i).fd_array 0 stdin_entry) 1 stdout_entry;
  args = args;
}

pub started-claimed_pcb :
    (i : ℕ) (c : Console) (args : List ℕ) (k : Kernel)
    → (started i c args k).pcbs i ≡ claimed_pcb i args k
started-claimed_pcb i c args k =
    set_pcb_self i _ _ ∙ ap (λ (p : Pcb). record p { args = args }) (set_pcb_self i _ _)

-- A start with a free number and a command that can be taken apart.
pub record Starts (f : Frame) (command : List ℕ) (k : Kernel) (i : ℕ) (c : Console)
    (exe args : List ℕ) : Type 0 where
  pub number : LowestFree k.pid_array i
  pub counted : count_process k.console ≡ some c
  pub parsed : parse_command command ≡ some (exe, args)

pub find_pid-lowest : (used : List ℕ) (i : ℕ) → LowestFree used i → find_pid 6 0 used ≡ some i
find_pid-lowest used i low = elim (find_pid-LowestFree used) [
  | inl (e, taken) ↦ absurd (taken i low.below_limit low.free)
  | inr (j, e, other) ↦ e ∙ ap some (same j other)
]
  where
    same : (j : ℕ) → LowestFree used j → j ≡ i
    same j other = elim (ℕ_discrete j i) [
      | yes e ↦ e
      | no ne ↦ elim (dec_lt j i) [
        | yes less ↦ absurd (low.taken j less other.free)
        | no more ↦ absurd (other.taken i (omega arith) low.free)
      ]
    ]

pub syscall_execute-started :
    (f : Frame) (command : List ℕ) (k : Kernel) (i : ℕ) (c : Console) (exe args : List ℕ)
    → Starts f command k i c exe args
    → syscall_execute f command k ≡ find_and_load f exe (started i c args k)
unfolding syscall_execute claim_pid
syscall_execute-started f command k i c exe args h =
    rw (find_pid-lowest k.pid_array i h.number, syscall_execute)
      (rw (h.counted, ◌>>=◌, h.parsed) refl)
