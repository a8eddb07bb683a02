-- ===== src/Str/Reverse.antt =====
-- `strrev` and the exchange of characters it is made of.
use mathlib.Core.List.{append_assoc, reverse, reverse-append, reverse-cons}
use my_linux_os.Common.{
  true, false, Bool-cases, Option-cases, inl, inr, leb, ◌==◌, if◌then◌else◌, ◌>>=◌, ℕ, zero, suc,
  ◌+◌, ◌*◌, ◌-◌, ◌<◌, ◌≡◌, refl, sym, subst, ap, ◌∙◌, List, [], ◌∷◌, ◌++◌, some, arith, length,
  get_elem?, set, length-append,
}
use my_linux_os.Str.{strlen, strrev, swap_ends}
use my_linux_os.Str.Length.{NoNul, strlen_text}

-- The element behind a prefix.
get_elem?-append :
    (pre : List ℕ) (x : ℕ) (post : List ℕ) → get_elem? (pre ++ x ∷ post) (length pre) ≡ some x
get_elem?-append [] x post = refl
get_elem?-append (a ∷ pre) x post = get_elem?-append pre x post

set-append :
    (pre : List ℕ) (x y : ℕ) (post : List ℕ)
    → set (pre ++ x ∷ post) (length pre) y ≡ pre ++ y ∷ post
set-append [] x y post = refl
set-append (a ∷ pre) x y post = ap (◌∷◌ a) (set-append pre x y post)

-- A list of two or more has a first and a last element.
unsnoc : (a : ℕ) (mid : List ℕ) → (init : List ℕ) × (b : ℕ) × (a ∷ mid ≡ init ++ b ∷ [])
unsnoc a [] = ([], a, refl)
unsnoc a (c ∷ mid) = let (init, b, e) = unsnoc c mid in (a ∷ init, b, ap (◌∷◌ a) e)

module _ (a b : ℕ) (pre init post : List ℕ) where
  fetch_last : get_elem? (pre ++ a ∷ init ++ b ∷ post) (length pre + suc (length init)) ≡ some b
  fetch_last = rw (← length-append pre (a ∷ init)) (get_elem?-append (pre ++ a ∷ init) b post)

  fetch_first : get_elem? (pre ++ a ∷ init ++ b ∷ post) (length pre) ≡ some a
  fetch_first = rw (append_assoc pre (a ∷ init) (b ∷ post)) (get_elem?-append pre a _)

  store_both :
      set (set (pre ++ a ∷ init ++ b ∷ post) (length pre + suc (length init)) a) (length pre) b
      ≡ pre ++ b ∷ init ++ a ∷ post
  store_both = rw (← length-append pre (a ∷ init)) (
      rw (set-append (pre ++ a ∷ init) b a post, append_assoc pre (a ∷ init) (a ∷ post))
        (rw (set-append pre a b (init ++ a ∷ post)) (sym (append_assoc pre (b ∷ init) (a ∷ post)))))

  -- One round of the loop exchanges the two ends.
  swap_ends_round :
      (fuel : ℕ)
      → swap_ends
          (suc fuel)
          (length pre)
          (length pre + suc (length init))
          (pre ++ a ∷ init ++ b ∷ post)
        ≡ swap_ends fuel
            (length pre + 1)
            (length pre + suc (length init) - 1)
            (pre ++ b ∷ init ++ a ∷ post)
  unfolding swap_ends
  swap_ends_round fuel = ground (arith, fetch_last, fetch_first, store_both)

  reverse_ends : reverse (a ∷ init ++ b ∷ []) ≡ b ∷ reverse init ++ a ∷ []
  reverse_ends = reverse-append (a ∷ init) (b ∷ []) ∙ ap (◌∷◌ b) (reverse-cons a init)

  regroup : (pre ++ (a ∷ init ++ b ∷ []) ++ post) ≡ (pre ++ a ∷ init ++ b ∷ post)
  regroup = simp append_assoc

  regroup_next : (pre ++ (b ∷ []) ++ init ++ a ∷ post) ≡ (pre ++ b ∷ init ++ a ∷ post)
  regroup_next = simp append_assoc

  regroup_done :
      (pre ++ (b ∷ []) ++ reverse init ++ a ∷ post) ≡ (pre ++ reverse (a ∷ init ++ b ∷ []) ++ post)
  regroup_done = rw reverse_ends (simp append_assoc)

-- The loop reverses the part between its two indices and leaves the rest.
swap_ends_lem :
    (fuel : ℕ) (pre mid post : List ℕ) (end : ℕ)
    → length mid < 2 * fuel
    → end + 1 ≡ length pre + length mid
    → swap_ends fuel (length pre) end (pre ++ mid ++ post) ≡ some (pre ++ reverse mid ++ post)
swap_ends_lem zero pre mid post end h e = absurd (omega arith)
swap_ends_lem (suc fuel) pre [] post end h e = unfold swap_ends in ground arith
swap_ends_lem (suc fuel) pre (a ∷ []) post end h e = unfold swap_ends in ground arith
swap_ends_lem (suc fuel) pre (a ∷ c ∷ mid) post end h e =
    let (init, b, split) = unsnoc c mid in
    let len : suc (length mid) ≡ length init + 1 =
      omega (arith, ap length split, length-append init (b ∷ [])) in
    let end_is : end ≡ length pre + suc (length init) = omega arith in
    let ih : swap_ends fuel (length (pre ++ b ∷ [])) (length pre + suc (length init) - 1)
          (pre ++ (b ∷ []) ++ init ++ a ∷ post)
        ≡ some (pre ++ (b ∷ []) ++ reverse init ++ a ∷ post) =
      swap_ends_lem fuel (pre ++ b ∷ []) init (a ∷ post) (length pre + suc (length init) - 1)
        (omega arith) (omega (arith, length-append pre (b ∷ []))) in
    subst
      (λ (t : List ℕ).
        swap_ends (suc fuel) (length pre) end (pre ++ a ∷ t ++ post)
        ≡ some (pre ++ reverse (a ∷ t) ++ post))
      (sym split)
      (rw (end_is, regroup a b pre init post, swap_ends_round a b pre init post fuel)
        (rw
          (
            ← regroup_done a b pre init post,
            ← regroup_next a b pre init post,
            ← length-append pre (b ∷ []),
          )
          ih))

-- `strrev` reverses the text in front of the terminator and changes nothing else.
pub strrev_text :
    (s rest : List ℕ) → NoNul s → strrev (s ++ 0 ∷ rest) ≡ some (reverse s ++ 0 ∷ rest)
unfolding strrev
strrev_text [] rest h = refl
strrev_text (c ∷ s) rest h =
    rw (strlen_text (c ∷ s) rest h)
      (ground (arith, swap_ends_lem (suc (length s)) [] (c ∷ s) (0 ∷ rest) (length s)))

one_or_none :
    (n : ℕ) (s : List ℕ)
    → leb n 1 ≡ true
    → (if n == 0 then some s else swap_ends n 0 (n - 1) s) ≡ some s
unfolding swap_ends
one_or_none zero s h = refl
one_or_none (suc zero) s h = refl
one_or_none (suc (suc n)) s h = absurd (ground (arith, h))

-- A string of at most one character is its reverse.
pub strrev-cases :
    (s : List ℕ)
    → (strlen s >>= λ n. if leb n 1 then some s else swap_ends n 0 (n - 1) s) ≡ strrev s
unfolding strrev
strrev-cases s = elim (Option-cases (strlen s)) [
  | inl e ↦ rw e refl
  | inr (n, e) ↦
      rw (e, ◌>>=◌)
        (elim (Bool-cases (leb n 1)) [
          | inl few ↦ rw few (sym (one_or_none n s few))
          | inr many ↦ rw (many, more n many) refl
        ])
]
  where
    more : (n : ℕ) → leb n 1 ≡ false → (n == 0) ≡ false
    more n h = ground (arith, h)
