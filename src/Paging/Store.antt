-- ===== src/Paging/Store.antt =====
-- What a run of stores to virtual addresses leaves in physical memory.
use my_linux_os.Common.{
  ℕ, zero, suc, ◌+◌, ◌-◌, ◌%◌, ◌^◌, ◌<◌, ◌≡◌, refl, ap, ◌∙◌, List, [], ◌∷◌, Option, none, some,
  false, ltb, if◌then◌else◌, ◌>>=◌, get_elem?, length, arith, Mem, store,
}
use native.Mathlib.Decide.{dec_lt, ℕ_discrete}
use my_linux_os.Paging.{Paging}
use my_linux_os.Paging.Translate.{translate}
use my_linux_os.Paging.Virtual.{store_virtual}

abbrev byte_or : Option ℕ → ℕ → ℕ
byte_or none old = old
byte_or (some b) old = b

-- Memory with the bytes from physical address `a` on.
abbrev pub written : ℕ → List ℕ → Mem → Mem
written a bytes m x = if ltb x a then m x else byte_or (get_elem? bytes (x - a)) (m x)

written-cons :
    (a b : ℕ) (bytes : List ℕ) (m : Mem) (x : ℕ)
    → written (a + 1) bytes (store m a b) x ≡ written a (b ∷ bytes) m x
written-cons a b bytes m x = elim (dec_lt x a) [
  | yes below ↦ ground arith
  | no other ↦ elim (ℕ_discrete x a) [
    | yes same ↦ rw same (ground arith)
    | no above ↦
        let one_less : x - a ≡ suc (x - (a + 1)) = omega arith in rw one_less (ground arith)
  ]
]

-- Where the tables lead the addresses from `v` on to those from `a` on, one after the other, the stores
-- all succeed and write the bytes there.
pub store_virtual-written :
    (p : Paging) (v a : ℕ) (bytes : List ℕ) (m : Mem)
    → v + length bytes < 2 ^ 32
    → ((j : ℕ) → j < length bytes → translate false p (v + j) ≡ some (a + j))
    → (m' : Mem) × (store_virtual p v bytes m ≡ some m') × ((x : ℕ) → m' x ≡ written a bytes m x)
unfolding store_virtual
store_virtual-written p v a [] m small leads = (m, refl, λ x. ground arith)
store_virtual-written p v a (b ∷ bytes) m small leads =
    let (m', run, is) =
      store_virtual-written p (v + 1) (a + 1) bytes (store m a b) (omega arith) (λ j h.
        ap (translate false p) (omega arith)
        ∙ leads (suc j) (omega arith)
        ∙ ap some (omega arith)) in
    let here : translate false p v ≡ some a =
      ap (translate false p) (omega arith) ∙ leads zero (omega arith) ∙ ap some (omega arith) in
    let next : (v + 1) % 2 ^ 32 ≡ v + 1 = omega arith in
    (m', rw (here, ◌>>=◌, next) run, λ x. is x ∙ written-cons a b bytes m x)
