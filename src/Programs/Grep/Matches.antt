-- ===== src/Programs/Grep/Matches.antt =====
-- The search of `grep` in a line, against a description of where a text stands.
use mathlib.Core.List.{append_assoc}
use my_linux_os.Common.{
  ℕ, suc, ◌+◌, ◌≡◌, refl, sym, ap, ap₂, ltb, ◌∙◌, List, [], ◌∷◌, ◌++◌, some, Bool, true, false,
  ◌==◌, ◌||◌, ◌&&◌, if◌then◌else◌, ◌>>=◌, get_elem?, drop, length, length-append, arith, ne→==,
  Bool-cases, inl, inr,
}
use my_linux_os.Common.Int.{ℤ, pos, eqb_ℤ, signed8, ◌-ℤ◌}
use my_linux_os.Str.Length.{NoNul}
use my_linux_os.Support.{ece391_strncmp}
use my_linux_os.Programs.Grep.{matches}

-- Does a line start with the text?
abbrev pub starts : List ℕ → List ℕ → Bool
starts [] l = true
starts (b ∷ text) [] = false
starts (b ∷ text) (a ∷ l) = (b == a) && starts text l

-- Does the text stand anywhere in a line?
abbrev pub contains : List ℕ → List ℕ → Bool
contains text [] = false
contains text (a ∷ l) = starts text (a ∷ l) || contains text l

differ : (a b : ℕ) → (b == a) ≡ false → eqb_ℤ (pos a -ℤ pos b) (pos 0) ≡ false
differ a b h = ground (arith, h)

swapped : (a b : ℕ) (v : Bool) → (b == a) ≡ v → (a == b) ≡ v
swapped a b v h = ground (arith, h)

more_left : (n : ℕ) → (suc n == 0) ≡ false
more_left n = ground arith

step :
    (low same equal begins more : Bool)
    → equal ≡ (same && begins)
    → (if low && same then if equal then some true else some (low && more) else some (low && more))
      ≡ some (low && ((same && begins) || more))
step true true true true more h = refl
step true true false false more h = refl
step true true true false more h = absurd (ground (arith, h))
step true true false true more h = absurd (ground (arith, h))
step true false equal begins more h = refl
step false same equal begins more h = refl

-- A signed character and a byte are the same number when both are below 128 and equal.
first_test : (b a : ℕ) → eqb_ℤ (signed8 b) (pos a) ≡ (ltb b 128 && (b == a))
first_test b a = ground arith

nowhere : (v : Bool) → false ≡ (v && false)
nowhere true = refl
nowhere false = refl

strncmp-starts :
    (text l rest r : List ℕ)
    → NoNul text
    → NoNul l
    → (z : ℤ) × (ece391_strncmp (l ++ 0 ∷ rest) (text ++ 0 ∷ r) (length text) ≡ some z)
      × (eqb_ℤ z (pos 0) ≡ starts text l)
unfolding ece391_strncmp
strncmp-starts [] l rest r p q = (pos 0, refl, refl)
strncmp-starts (b ∷ text) [] rest r p q =
    let other : (b == 0) ≡ false = ne→== b 0 p.0 in
    (pos 0 -ℤ pos b, rw (swapped 0 b false other) refl, differ 0 b other)
strncmp-starts (b ∷ []) (a ∷ l) rest r p q = elim (Bool-cases (b == a)) [
  | inl e ↦ (pos 0, rw (swapped a b true e, ne→== a 0 q.0) refl, rw e refl)
  | inr e ↦ (pos a -ℤ pos b, rw (swapped a b false e) refl, rw e (differ a b e))
]
strncmp-starts (b ∷ c ∷ text) (a ∷ l) rest r p q = elim (Bool-cases (b == a)) [
  | inl e ↦
      let (z, is, at) = strncmp-starts (c ∷ text) l rest r p.1 q.1 in
      (z, rw (swapped a b true e, ne→== a 0 q.0, more_left (length text)) is, rw e at)
  | inr e ↦ (pos a -ℤ pos b, rw (swapped a b false e) refl, rw e (differ a b e))
]

get_elem?-behind : (pre l : List ℕ) (a : ℕ) → get_elem? (pre ++ a ∷ l) (length pre) ≡ some a
get_elem?-behind [] l a = refl
get_elem?-behind (x ∷ pre) l a = get_elem?-behind pre l a

drop-behind : (pre l : List ℕ) → drop (length pre) (pre ++ l) ≡ l
drop-behind [] l = refl
drop-behind (x ∷ pre) l = drop-behind pre l

one_further : (pre : List ℕ) (a : ℕ) → length (pre ++ a ∷ []) ≡ length pre + 1
one_further pre a = length-append pre (a ∷ [])

-- `grep` finds the text in a line exactly when the text stands somewhere in it and its first character
-- is below 128, where `pre` is what stands in the buffer before the line, and the line is ended by
-- a null. Neither the text, which is not empty, nor the line holds a null itself.
pub matches-contains :
    (b : ℕ) (text r pre l rest : List ℕ)
    → NoNul (b ∷ text)
    → NoNul l
    → matches
        (length l)
        (length pre)
        (b ∷ text ++ 0 ∷ r)
        (length (b ∷ text))
        (pre ++ (l ++ 0 ∷ rest))
      ≡ some (ltb b 128 && contains (b ∷ text) l)
unfolding matches
matches-contains b text r pre [] rest p q = ap (λ (v : Bool). some v) (nowhere (ltb b 128))
matches-contains b text r pre (a ∷ l) rest p q =
    let data_of : List ℕ = pre ++ (a ∷ l ++ 0 ∷ rest) in
    let (z, is, at) = strncmp-starts (b ∷ text) (a ∷ l) rest r p q in
    let further : matches (length l) (length pre + 1) (b ∷ text ++ 0 ∷ r) (length (b ∷ text))
          data_of
        ≡ some (ltb b 128 && contains (b ∷ text) l) =
      ap₂ (λ (n : ℕ) (d : List ℕ). matches (length l) n (b ∷ text ++ 0 ∷ r) (length (b ∷ text)) d)
        (sym (one_further pre a)) (sym (append_assoc pre (a ∷ []) (l ++ 0 ∷ rest)))
      ∙ matches-contains b text r (pre ++ a ∷ []) l rest p q.1 in
    rw
      (
        get_elem?-behind pre (l ++ 0 ∷ rest) a,
        first_test b a,
        ◌>>=◌,
        drop-behind pre (a ∷ l ++ 0 ∷ rest),
        is,
        ◌>>=◌,
        further,
      )
      (step (ltb b 128) (b == a) (eqb_ℤ z (pos 0)) (starts text l) (contains (b ∷ text) l) at)
