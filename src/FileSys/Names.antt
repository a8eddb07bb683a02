-- ===== src/FileSys/Names.antt =====
-- Looking an entry up by its name.
use my_linux_os.Common.{
  ℕ, zero, suc, ◌+◌, ◌≤◌, ◌<◌, ◌≡◌, refl, ap, ◌∙◌, List, ◌∷◌, ◌++◌, Option, some, none, arith,
  length, if◌then◌else◌, Bool-cases, ◌⊎◌, inl, inr, Mem, bytes,
}
use my_linux_os.Common.Int.{ℤ, pos, eqb_ℤ, eqb_ℤ_iff}
use native.Mathlib.Decide.{dec_lt}
use my_linux_os.Str.{strncmp}
use my_linux_os.Str.Length.{NoNul, strlen_text}
use my_linux_os.Str.Compare.{cut, AreBytes, Readable, Readable-text, Readable-long, strncmp_iff}
use my_linux_os.FileSys.{
  FileSys, Dentry, dentry_at, den_addr, find_dentry, read_dentry_by_name, boot_size,
  filename_max_length,
}

-- Every address holds a byte.
abbrev pub HoldsBytes : Mem → Type 0
HoldsBytes m = (a : ℕ) → m a < 256

bytes-AreBytes : (m : Mem) (a n : ℕ) → HoldsBytes m → AreBytes (bytes m a n)
unfolding bytes
bytes-AreBytes m a zero h = tt
bytes-AreBytes m a (suc n) h = (h a, bytes-AreBytes m (a + 1) n h)

pub length-bytes : (m : Mem) (a n : ℕ) → length (bytes m a n) ≡ n
unfolding bytes
length-bytes m a zero = refl
length-bytes m a (suc n) = ap suc (length-bytes m (a + 1) n)

-- The entry `i` has the name: the two agree up to 32 bytes or the end of the string.
abbrev pub HasName : Mem → FileSys → List ℕ → ℕ → Type 0
HasName m fs fname i =
    cut filename_max_length fname
    ≡ cut filename_max_length (bytes m (den_addr fs i) filename_max_length)

-- What a search of the entries from `i` on, `n` of them, is to give.
pub data Finds (m : Mem) (fs : FileSys) (fname : List ℕ) (i n : ℕ) : Option Dentry → Type 0 where
  found :
      (k : ℕ)
      → i ≤ k
      → k < i + n
      → HasName m fs fname k
      → ((j : ℕ) → i ≤ j → j < k → ¬ HasName m fs fname j)
      → Finds m fs fname i n (some (dentry_at m (den_addr fs k)))
  missing : ((j : ℕ) → i ≤ j → j < i + n → ¬ HasName m fs fname j) → Finds m fs fname i n none

module _ (m : Mem) (fs : FileSys) (fname : List ℕ) (holds : HoldsBytes m) (are : AreBytes fname)
    (readable : Readable filename_max_length fname) where
  -- A round of the loop, by the result of the comparison.
  find_dentry_round :
      (i n : ℕ) (z : ℤ)
      → strncmp fname (bytes m (den_addr fs i) filename_max_length) filename_max_length ≡ some z
      → find_dentry m fs fname (suc n) i ≡ (
          if eqb_ℤ z (pos 0)
          then some (some (dentry_at m (den_addr fs i)))
          else find_dentry m fs fname n (i + 1))
  unfolding find_dentry
  find_dentry_round i n z run = rw run

  -- Comparing the name with entry `i` returns, with 0 exactly when the entry has the name.
  compare_entry :
      (i n : ℕ)
      → (HasName m fs fname i
          × (find_dentry m fs fname (suc n) i ≡ some (some (dentry_at m (den_addr fs i)))))
        ⊎ ((¬ HasName m fs fname i)
            × (find_dentry m fs fname (suc n) i ≡ find_dentry m fs fname n (i + 1)))
  compare_entry i n =
      let (z, run, iff) =
        strncmp_iff fname (bytes m (den_addr fs i) 32) 32 are
          (bytes-AreBytes m (den_addr fs i) 32 holds) readable
          (Readable-long 32 (bytes m (den_addr fs i) 32)
            (omega (arith, length-bytes m (den_addr fs i) 32))) in
      elim (Bool-cases (eqb_ℤ z (pos 0))) [
        | inl hit ↦ inl (iff.0 ((eqb_ℤ_iff z (pos 0)).0 hit), find_dentry_round i n z run ∙ rw hit)
        | inr miss ↦ inr (
          (λ has. ground (arith, (eqb_ℤ_iff z (pos 0)).1 (iff.1 has))),
          find_dentry_round i n z run ∙ rw miss,
        )
      ]

  Finds-miss :
      (n i : ℕ) {r : Option Dentry}
      → ¬ HasName m fs fname i
      → Finds m fs fname (i + 1) n r
      → Finds m fs fname i (suc n) r
  Finds-miss n i no_i (found k lo hi has before) = found k (omega arith) (omega arith) has (λ j a b.
      elim (dec_lt i j) [
        | yes more ↦ before j (omega arith) b
        | no same ↦ let e : j ≡ i = omega arith in rw e no_i
      ])
  Finds-miss n i no_i (missing none_of) = missing (λ j a b. elim (dec_lt i j) [
    | yes more ↦ none_of j (omega arith) (omega arith)
    | no same ↦ let e : j ≡ i = omega arith in rw e no_i
  ])

  find_dentry-Finds :
      (n i : ℕ)
      → (r : Option Dentry) × (find_dentry m fs fname n i ≡ some r) × Finds m fs fname i n r
  find_dentry-Finds zero i =
      (none, unfold find_dentry in refl, missing (λ j a b. absurd (omega arith)))
  find_dentry-Finds (suc n) i = elim (compare_entry i n) [
    | inl (has, run) ↦ (
      some (dentry_at m (den_addr fs i)),
      run,
      found i (omega arith) (omega arith) has (λ j a b. absurd (omega arith)),
    )
    | inr (no_i, run) ↦
        let (r, rest, finds) = find_dentry-Finds n (i + 1) in
        (r, run ∙ rest, Finds-miss n i no_i finds)
  ]

-- Looking up a name that is a string of at most 32 bytes, in a memory of bytes: the call returns,
-- and it fills in the first of the 64 entries that has the name, or returns -1 if none has.
pub read_dentry_by_name-Finds :
    (m : Mem) (fs : FileSys) (s rest : List ℕ)
    → HoldsBytes m
    → AreBytes (s ++ 0 ∷ rest)
    → NoNul s
    → length s ≤ filename_max_length
    → (r : Option Dentry) × (read_dentry_by_name m fs (some (s ++ 0 ∷ rest)) ≡ some r)
      × Finds m fs (s ++ 0 ∷ rest) 0 boot_size r
unfolding read_dentry_by_name
read_dentry_by_name-Finds m fs s rest holds are nonul short =
    let (r, run, finds) =
      find_dentry-Finds m fs (s ++ 0 ∷ rest) holds are (Readable-text 32 s rest) boot_size 0 in
    (r, ground (arith, strlen_text s rest nonul, run), finds)
