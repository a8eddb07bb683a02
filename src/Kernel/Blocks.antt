-- ===== src/Kernel/Blocks.antt =====
-- A store to one of the control blocks of student-distrib/syscall.c, read back.
use my_linux_os.Common.{
  ℕ, ◌==◌, ◌≡◌, ◌≢◌, refl, sym, ap, fun_ext, inl, inr, Bool-cases, arith, ne→==,
}
use my_linux_os.Pcb.{Pcb}
use my_linux_os.Kernel.{Kernel, curr_pcb, with_pcb, set_pcb}

pub set_pcb_self : (i : ℕ) (p : Pcb) (pcbs : ℕ → Pcb) → set_pcb i p pcbs i ≡ p
unfolding set_pcb
set_pcb_self i p pcbs = ground arith

pub set_pcb_other : (i j : ℕ) (p : Pcb) (pcbs : ℕ → Pcb) → j ≢ i → set_pcb i p pcbs j ≡ pcbs j
unfolding set_pcb
set_pcb_other i j p pcbs h = rw (ne→== j i h) refl

-- A control block, stored where it was read from.
pub with_pcb_same : (k : Kernel) → with_pcb (curr_pcb k) k ≡ k
unfolding set_pcb
with_pcb_same k = ap (λ (f : ℕ → Pcb). record k { pcbs = f }) (fun_ext same)
  where
    same : (i : ℕ) → set_pcb k.pid (k.pcbs k.pid) k.pcbs i ≡ k.pcbs i
    same i = elim (Bool-cases (i == k.pid)) [
      | inl e ↦ let is : i ≡ k.pid = ground arith in rw (e) (ap k.pcbs (sym is))
      | inr e ↦ rw (e) refl
    ]
