-- ===== src/Str/Compare.antt =====
-- `strncmp`, `strcpy` and `strncpy` on strings in buffers.
use my_linux_os.Common.{
  ℕ, zero, suc, ◌+◌, ◌≤◌, ◌<◌, ◌≡◌, refl, sym, ap, ◌∙◌, ◌↔◌, ◌⊎◌, List, [], ◌∷◌, ◌++◌, some, arith,
  length, take, drop, replicate, All, ◌==◌, if◌then◌else◌, Bool-cases, inl, inr,
}
use my_linux_os.Common.Int.{ℤ, pos, ◌-ℤ◌, signed8}
use my_linux_os.Str.{strncmp, strcpy, strncpy, pad}
use my_linux_os.Str.Length.{NoNul}

-- What `strncmp` compares of a string: at most `n` bytes, and none from the first null on.
abbrev pub cut : ℕ → List ℕ → List ℕ
cut zero s = []
cut (suc n) [] = []
cut (suc n) (c ∷ s) = if c == 0 then [] else c ∷ cut n s

abbrev pub AreBytes : List ℕ → Type 0
AreBytes = All (λ c. c < 256)

signed8_eq : (a b : ℕ) → a < 256 → b < 256 → signed8 a -ℤ signed8 b ≡ pos 0 → a ≡ b
signed8_eq a b ha hb h = ground arith

signed8_self : (a : ℕ) → signed8 a -ℤ signed8 a ≡ pos 0
signed8_self a = ground arith

-- A read of at most `n` bytes up to the first null stays inside the buffer.
abbrev pub Readable : ℕ → List ℕ → Type 0
Readable zero s = Unit
Readable (suc n) [] = ⊥
Readable (suc n) (c ∷ s) = (c ≡ 0) ⊎ Readable n s

pub Readable-text : (n : ℕ) (s rest : List ℕ) → Readable n (s ++ 0 ∷ rest)
Readable-text zero s rest = tt
Readable-text (suc n) [] rest = inl refl
Readable-text (suc n) (c ∷ s) rest = inr (Readable-text n s rest)

pub Readable-long : (n : ℕ) (s : List ℕ) → n ≤ length s → Readable n s
Readable-long zero s h = tt
Readable-long (suc n) [] h = absurd (omega arith)
Readable-long (suc n) (c ∷ s) h = inr (Readable-long n s (omega arith))

-- On two buffers of bytes in which a read of at most `n` bytes stays inside, `strncmp` returns, and
-- its result is 0 exactly when the strings agree up to `n` bytes or their end.
pub strncmp_iff :
    (s1 s2 : List ℕ) (n : ℕ)
    → AreBytes s1
    → AreBytes s2
    → Readable n s1
    → Readable n s2
    → (z : ℤ) × (strncmp s1 s2 n ≡ some z) × ((z ≡ pos 0) ↔ (cut n s1 ≡ cut n s2))
unfolding strncmp
strncmp_iff s1 s2 zero h1 h2 k1 k2 = (pos 0, refl, (λ e. refl, λ e. refl))
strncmp_iff [] s2 (suc n) h1 h2 k1 k2 = absurd k1
strncmp_iff (a ∷ s1) [] (suc n) h1 h2 k1 k2 = absurd k2
strncmp_iff (a ∷ s1) (b ∷ s2) (suc n) h1 h2 k1 k2 = elim (Bool-cases (a == b)) [
  | inr ne ↦ (
    signed8 a -ℤ signed8 b,
    rw ne,
    (λ e. ground (arith, signed8_eq a b h1.0 h2.0 e), λ e. ground arith),
  )
  | inl eq ↦ elim (Bool-cases (a == 0)) [
    | inl nul ↦ (
      signed8 a -ℤ signed8 b,
      rw (eq, nul),
      (λ e. ground arith, λ e. ground (arith, signed8_self a)),
    )
    | inr more ↦
        let same : a ≡ b = ground arith in
        let (z, e, iff) =
          strncmp_iff s1 s2 n h1.1 h2.1 (elim k1 [ inl q ↦ absurd (ground arith) | inr q ↦ q ])
            (elim k2 [ inl q ↦ absurd (ground arith) | inr q ↦ q ]) in
        (z, rw (eq, more) e, (λ q. ground (arith, iff.0 q), λ q. iff.1 (ground arith)))
  ]
]

-- `strcpy` of a string that fits with its terminator copies both, and the rest of the buffer stays.
strcpy_text :
    (dest s rest : List ℕ)
    → NoNul s
    → length s < length dest
    → strcpy dest (s ++ 0 ∷ rest) ≡ some (s ++ 0 ∷ drop (length s + 1) dest)
unfolding strcpy
strcpy_text [] s rest h k = absurd (omega arith)
strcpy_text (d ∷ dest) [] rest h k = refl
strcpy_text (d ∷ dest) (c ∷ s) rest h k = ground (arith, strcpy_text dest s rest h.1)

take-replicate : (n m : ℕ) → n ≤ m → take {A = ℕ} n (replicate {A = ℕ} m 0) ≡ replicate n 0
take-replicate zero m h = refl
take-replicate (suc n) zero h = absurd (omega arith)
take-replicate (suc n) (suc m) h = ap (◌∷◌ 0) (take-replicate n m (omega arith))

-- Nulls past the `n` bytes that are taken make no difference.
take_padded :
    (n m : ℕ) (s : List ℕ) → n ≤ m → take n (s ++ replicate m 0) ≡ take n (s ++ replicate n 0)
take_padded zero m s h = refl
take_padded (suc n) m [] h =
    take-replicate (suc n) m h ∙ sym (take-replicate (suc n) (suc n) (omega arith))
take_padded (suc n) m (c ∷ s) h =
    ap (◌∷◌ c) (take_padded n m s (omega arith) ∙ sym (take_padded n (suc n) s (omega arith)))

pad_lem :
    (dest : List ℕ) (n : ℕ) → n ≤ length dest → pad dest n ≡ some (replicate n 0 ++ drop n dest)
unfolding pad
pad_lem dest zero h = refl
pad_lem [] (suc n) h = absurd (omega arith)
pad_lem (d ∷ dest) (suc n) h = rw (pad_lem dest n (omega arith))

-- `strncpy` of a string to a buffer of at least `n` bytes fills exactly `n` of them: the text, cut
-- at `n`, and nulls behind it.
strncpy_text :
    (dest s rest : List ℕ) (n : ℕ)
    → NoNul s
    → n ≤ length dest
    → strncpy dest (s ++ 0 ∷ rest) n ≡ some (take n (s ++ replicate n 0) ++ drop n dest)
unfolding strncpy
strncpy_text dest [] rest zero h k = refl
strncpy_text dest (c ∷ s) rest zero h k = refl
strncpy_text [] s rest (suc n) h k = absurd (omega arith)
strncpy_text (d ∷ dest) [] rest (suc n) h k =
    rw (pad_lem dest n (omega arith), take-replicate n n (omega arith))
strncpy_text (d ∷ dest) (c ∷ s) rest (suc n) h k =
    ground (arith, strncpy_text dest s rest n h.1, take_padded n (suc n) s (omega arith))
