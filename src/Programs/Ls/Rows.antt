-- ===== src/Programs/Ls/Rows.antt =====
-- The rows that `ls` writes: a name with a line feed stored behind it.
use mathlib.Core.List.{append_assoc}
use my_linux_os.Common.{
  ℕ, zero, suc, ◌<◌, ◌≡◌, ◌≢◌, ◌⊎◌, inl, inr, refl, sym, ap, ◌∙◌, List, [], ◌∷◌, ◌++◌, some,
  Bool-cases, ◌==◌, ◌>>=◌, get_elem?, set, drop, length, length-append, length-drop, length-set,
  overwrite, arith,
}
use my_linux_os.Common.Int.{pos}
use my_linux_os.Str.Length.{NoNul}
use my_linux_os.Str.Compare.{cut}
use my_linux_os.Programs.Buffer.{put_at}

pub empty_or_not : (xs : List ℕ) → (xs ≡ []) ⊎ (xs ≢ [])
empty_or_not [] = inl refl
empty_or_not (x ∷ xs) = inr (ground arith)

pub cut-NoNul : (n : ℕ) (s : List ℕ) → NoNul (cut n s)
cut-NoNul zero s = tt
cut-NoNul (suc n) [] = tt
cut-NoNul (suc n) (c ∷ s) = elim (Bool-cases (c == 0)) [
  | inl e ↦ rw e tt
  | inr e ↦ rw e ((λ z. ground (arith, e, z)), cut-NoNul n s)
]

-- The name of a row, with the line feed stored behind it.
set-cut :
    (n v : ℕ) (name r : List ℕ)
    → length name ≡ n
    → 0 < length r
    → (more : List ℕ) × (old : ℕ) × (get_elem? (name ++ r) (length (cut n name)) ≡ some old)
      × (set (name ++ r) (length (cut n name)) v ≡ cut n name ++ v ∷ more)
set-cut zero v [] [] full h = absurd (ground (arith, h))
set-cut zero v [] (x ∷ r) full h = (r, x, refl, refl)
set-cut zero v (c ∷ name) r full h = absurd (omega arith)
set-cut (suc n) v [] r full h = absurd (omega arith)
set-cut (suc n) v (c ∷ name) r full h = elim (Bool-cases (c == 0)) [
  | inl e ↦ (name ++ r, c, rw e refl, rw e refl)
  | inr e ↦
      let (more, old, at, is) = set-cut n v name r (omega arith) h in
      (more, old, rw e at, rw e (ap (λ (t : List ℕ). c ∷ t) is))
]

pub row_of :
    (v : ℕ) (name buf : List ℕ)
    → length name ≡ 32
    → length buf ≡ 33
    → (more : List ℕ) × (put_at (overwrite name buf) (pos (length (cut 32 name))) v
        ≡ some ((cut 32 name ++ v ∷ []) ++ more))
      × (length ((cut 32 name ++ v ∷ []) ++ more) ≡ 33)
row_of v name buf full size =
    let behind : 0 < length (drop (length name) buf) =
      omega (arith, length-drop (length name) buf) in
    let (more, old, at, is) = set-cut 32 v name (drop (length name) buf) full behind in
    let row : set (overwrite name buf) (length (cut 32 name)) v ≡ (cut 32 name ++ v ∷ []) ++ more =
      is ∙ sym (append_assoc (cut 32 name) (v ∷ []) more) in
    (
      more,
      rw (at, ◌>>=◌) (ap (λ (t : List ℕ). some t) row),
      ap length (sym row)
          ∙ length-set (overwrite name buf) (length (cut 32 name)) v
          ∙ length-append name (drop (length name) buf)
          ∙ omega (arith, length-drop (length name) buf),
    )
