-- ===== src/Support/Compare.antt =====
-- The two comparisons of a prefix, the one of the programs and the one of the kernel.
use my_linux_os.Common.{
  ℕ, zero, suc, ◌<◌, ◌≡◌, ◌≢◌, refl, subst, List, [], ◌∷◌, Option, none, some, true, false, not,
  ◌==◌, ◌||◌, if◌then◌else◌, All, Bool-cases, inl, inr, arith,
}
use my_linux_os.Common.Int.{ℤ, pos, ◌-ℤ◌, signed8}
use my_linux_os.Str.{strncmp}
use my_linux_os.Support.{ece391_strncmp}

abbrev pub Bytes : List ℕ → Type 0
Bytes = All (λ b. b < 256)

-- How the two results stand to each other: both are an access outside a buffer, both say equal, or
-- both say different.
pub data Agree : Option ℤ → Option ℤ → Type 0 where
  outside : Agree none none
  same : Agree (some (pos 0)) (some (pos 0))
  differ : (x y : ℤ) → x ≢ pos 0 → y ≢ pos 0 → Agree (some x) (some y)

unsigned_differ : (a b : ℕ) → (a == b) ≡ false → pos a -ℤ pos b ≢ pos 0
unsigned_differ a b h e = ground arith

signed_differ : (a b : ℕ) → a < 256 → b < 256 → (a == b) ≡ false → signed8 a -ℤ signed8 b ≢ pos 0
signed_differ a b h k d e = ground arith

signed_same : (a b : ℕ) → (a == b) ≡ true → signed8 a -ℤ signed8 b ≡ pos 0
signed_same a b e =
    let is : a ≡ b = ground arith in subst (λ c. signed8 a -ℤ signed8 c ≡ pos 0) is (ground arith)

-- One round on equal bytes.
equal_bytes :
    (u v : Option ℤ) (a b n : ℕ)
    → (a == b) ≡ true
    → Agree u v
    → (n ≡ 0 → v ≡ some (pos 0))
    → Agree
        (if a == b then if a == 0 || n == 0 then some (pos 0) else u else some (pos a -ℤ pos b))
        (if not (a == b) || a == 0 then some (signed8 a -ℤ signed8 b) else v)
equal_bytes u v a b n e agree bound = elim (Bool-cases (a == 0)) [
  | inl z ↦ rw (e, z, signed_same a b e) same
  | inr more ↦ elim (Bool-cases (n == 0)) [
    | inl last ↦ let z : n ≡ 0 = ground arith in rw (e, more, last, bound z) same
    | inr on ↦ rw (e, more, on) agree
  ]
]

-- On buffers of bytes, with any terminators and any bound, `ece391_strncmp` and the kernel's `strncmp`
-- agree: both read past a buffer, or both give 0, or both give another number.
pub ece391_strncmp-strncmp :
    (s1 s2 : List ℕ) (n : ℕ)
    → Bytes s1
    → Bytes s2
    → Agree (ece391_strncmp s1 s2 n) (strncmp s1 s2 n)
unfolding ece391_strncmp strncmp
ece391_strncmp-strncmp s1 s2 zero h k = same
ece391_strncmp-strncmp [] s2 (suc n) h k = outside
ece391_strncmp-strncmp (a ∷ s1) [] (suc n) h k = outside
ece391_strncmp-strncmp (a ∷ s1) (b ∷ s2) (suc n) (ha, h) (kb, k) = elim (Bool-cases (a == b)) [
  | inl e ↦
      equal_bytes (ece391_strncmp s1 s2 n) (strncmp s1 s2 n) a b n e
        (ece391_strncmp-strncmp s1 s2 n h k) (at_bound n)
  | inr e ↦ rw (e) (differ _ _ (unsigned_differ a b e) (signed_differ a b ha kb e))
]
  where
    at_bound : (n : ℕ) → n ≡ 0 → strncmp s1 s2 n ≡ some (pos 0)
    at_bound zero z = refl
    at_bound (suc n) z = absurd (omega arith)
