-- ===== src/Programs/Shell/Session.antt =====
-- The shell as its user sees it: the lines that are typed, and what becomes of each.
use my_linux_os.Common.{
  Bool-cases, inl, inr, ℕ, zero, suc, ◌+◌, ◌≤◌, ◌<◌, ◌≡◌, ◌≢◌, refl, sym, ap, ap₂, List, [], ◌∷◌,
  ◌++◌, some, true, false, overwrite, length, drop, get_elem?, set, ◌==◌, arith, ◌>>=◌, ne→==,
}
use my_linux_os.Common.Int.{ℤ, pos, minus_one, eqb_ℤ, eqb_ℤ_iff, ltb_ℤ, ◌-ℤ◌}
use my_linux_os.Str.Length.{NoNul}
use my_linux_os.Support.{ece391_strcmp}
use my_linux_os.Programs.{System, ece391_fdputs}
use my_linux_os.Programs.Text.{c_string, chars, no_nul-NoNul}
use native.Mathlib.Decide.{ℕ_discrete}
use my_linux_os.Programs.Shell.{
  end_line, say_result, obey, goes_on, ends, shell_round, shell_loop, shell,
}

-- A line that fits in the buffer: no null, no line feed, at most 1022 characters.
pub record IsLine (l : List ℕ) : Type 0 where
  pub text : NoNul l
  pub short : length l ≤ 1022

get_elem?_end : (l r : List ℕ) (c : ℕ) → get_elem? ((l ++ c ∷ []) ++ r) (length l) ≡ some c
get_elem?_end [] r c = refl
get_elem?_end (x ∷ l) r c = get_elem?_end l r c

set_end : (l r : List ℕ) (c v : ℕ) → set ((l ++ c ∷ []) ++ r) (length l) v ≡ l ++ v ∷ r
set_end [] r c v = refl
set_end (x ∷ l) r c v = ap (λ (t : List ℕ). x ∷ t) (set_end l r c v)

one_back : (n : ℕ) → pos (n + 1) -ℤ pos 1 ≡ pos n
one_back n = ground arith

-- The line feed of a line that has been read becomes the terminator.
end_line-feed :
    (l buf : List ℕ)
    → end_line (pos (length l + 1)) (overwrite (l ++ 0x0a ∷ []) buf)
      ≡ some (l ++ 0 ∷ drop (length (l ++ 0x0a ∷ [])) buf)
unfolding end_line
end_line-feed l buf =
    let rest : List ℕ = drop (length (l ++ 0x0a ∷ [])) buf in
    let some_read : ltb_ℤ (pos 0) (pos (length l + 1)) ≡ true = ground arith in
    rw
      (
        some_read,
        one_back (length l),
        get_elem?_end l rest 0x0a,
        ◌>>=◌,
        get_elem?_end l rest 0x0a,
        ◌>>=◌,
      )
      (ap (λ (t : List ℕ). some t) (set_end l rest 0x0a 0))

strcmp_same : (l r r' : List ℕ) → NoNul l → ece391_strcmp (l ++ 0 ∷ r) (l ++ 0 ∷ r') ≡ some (pos 0)
unfolding ece391_strcmp
strcmp_same [] r r' plain = refl
strcmp_same (c ∷ l) r r' (nul, plain) =
    let self : (c == c) ≡ true = ground arith in
    rw (self, ne→== c 0 nul, strcmp_same l r r' plain) refl

apart : (a b : ℕ) → a ≢ b → eqb_ℤ (pos a -ℤ pos b) (pos 0) ≡ false
apart a b h = ground arith

strcmp_differ :
    (l t r r' : List ℕ)
    → NoNul l
    → NoNul t
    → l ≢ t
    → (z : ℤ) × (ece391_strcmp (l ++ 0 ∷ r) (t ++ 0 ∷ r') ≡ some z) × (eqb_ℤ z (pos 0) ≡ false)
unfolding ece391_strcmp
strcmp_differ [] [] r r' p q h = absurd (h refl)
strcmp_differ [] (b ∷ t) r r' p q h =
    let other : (0 == b) ≡ false = ground (arith, q.0) in
    (pos 0 -ℤ pos b, rw other refl, apart 0 b (λ e. q.0 (sym e)))
strcmp_differ (a ∷ l) [] r r' p q h = (pos a -ℤ pos 0, rw (ne→== a 0 p.0) refl, apart a 0 p.0)
strcmp_differ (a ∷ l) (b ∷ t) r r' p q h = elim (ℕ_discrete a b) [
  | yes e ↦
      let (z, is, off) = strcmp_differ l t r r' p.1 q.1 (λ same. h (ap₂ ◌∷◌ e same)) in
      let equal : (a == b) ≡ true = ground (arith, e) in (z, rw (equal, ne→== a 0 p.0) is, off)
  | no d ↦ (pos a -ℤ pos b, rw (ne→== a b d) refl, apart a b d)
]

ne→eqb_ℤ : (a b : ℤ) → a ≢ b → eqb_ℤ a b ≡ false
ne→eqb_ℤ a b h = elim (Bool-cases (eqb_ℤ a b)) [
  | inl e ↦ absurd (h ((eqb_ℤ_iff a b).0 e))
  | inr e ↦ e
]

module _ {S : Type 0} (sys : System S) where
  -- The prompt, and the read of a line with the line feed that ends it.
  pub record Reads (l : List ℕ) (s s' : S) : Type 0 where
    pub prompted : S
    pub prompt : ece391_fdputs sys (pos 1) (c_string "391OS> ") s ≡ some prompted
    pub is_line : IsLine l
    pub reads :
        sys.ece391_read (pos 0) (pos 1023) prompted ≡ some (pos (length l + 1), l ++ 0x0a ∷ [], s')

  -- What the user reads of a command's result.
  pub data Says : ℤ → S → S → Type 0 where
    missing :
        (s t : S)
        → ece391_fdputs sys (pos 1) (c_string "no such command\n") s ≡ some t
        → Says minus_one s t
    by_exception :
        (s t : S)
        → ece391_fdputs sys (pos 1) (c_string "program terminated by exception\n") s ≡ some t
        → Says (pos 256) s t
    in_order : (s : S) → Says (pos 0) s s
    abnormal :
        (rval : ℤ) (s t : S)
        → rval ≢ minus_one
        → rval ≢ pos 256
        → rval ≢ pos 0
        → ece391_fdputs sys (pos 1) (c_string "program terminated abnormally\n") s ≡ some t
        → Says rval s t

  say_result-Says : (rval : ℤ) (s t : S) → Says rval s t → say_result sys rval s ≡ some t
  unfolding say_result
  say_result-Says _ _ _ (missing s t is) = is
  say_result-Says _ _ _ (by_exception s t is) = is
  say_result-Says _ _ _ (in_order s) = refl
  say_result-Says _ _ _ (abnormal rval s t a b c is) =
      rw (ne→eqb_ℤ rval minus_one a, ne→eqb_ℤ rval (pos 256) b, ne→eqb_ℤ rval (pos 0) c) is

  -- A session: the lines that are typed in it, from a state to the value of the shell and a state.
  -- A line with a command runs it, whatever stands in the buffer behind its end, and reports its
  -- result.
  pub data Session : List (List ℕ) → S → ℕ → S → Type 0 where
    quit : (s s' : S) → Reads (chars "exit") s s' → Session (chars "exit" ∷ []) s 0 s'
    nothing :
        (lines : List (List ℕ)) (s s1 t : S) (value : ℕ)
        → Reads [] s s1
        → Session lines s1 value t
        → Session ([] ∷ lines) s value t
    runs :
        (l : List ℕ) (lines : List (List ℕ)) (rval : ℤ) (s s1 s2 s3 t : S) (value : ℕ)
        → Reads l s s1
        → l ≢ []
        → l ≢ chars "exit"
        → ((rest : List ℕ) → sys.ece391_execute (l ++ 0 ∷ rest) s1 ≡ some (rval, s2))
        → Says rval s2 s3
        → Session lines s3 value t
        → Session (l ∷ lines) s value t
    unreadable :
        (out : List ℕ) (s s1 s2 t : S)
        → ece391_fdputs sys (pos 1) (c_string "391OS> ") s ≡ some s1
        → sys.ece391_read (pos 0) (pos 1023) s1 ≡ some (minus_one, out, s2)
        → ece391_fdputs sys (pos 1) (c_string "read from keyboard failed\n") s2 ≡ some t
        → Session [] s 3 t

  obey-exit : (rest : List ℕ) (s : S) → obey sys (chars "exit" ++ 0 ∷ rest) s ≡ some (ends 0 s)
  unfolding obey
  obey-exit rest s =
      rw (strcmp_same (chars "exit") rest [] (no_nul-NoNul (chars "exit") refl), ◌>>=◌) refl

  obey_nothing : (rest : List ℕ) (s : S) → obey sys (0 ∷ rest) s ≡ some (goes_on (0 ∷ rest) s)
  unfolding obey
  obey_nothing rest s =
      let (z, is, off) =
        strcmp_differ [] (chars "exit") rest [] tt (no_nul-NoNul (chars "exit") refl)
          (ground arith) in
      rw (is, ◌>>=◌, off) refl

  obey_runs :
      (l rest : List ℕ) (rval : ℤ) (s s2 s3 : S)
      → NoNul l
      → l ≢ []
      → l ≢ chars "exit"
      → sys.ece391_execute (l ++ 0 ∷ rest) s ≡ some (rval, s2)
      → say_result sys rval s2 ≡ some s3
      → obey sys (l ++ 0 ∷ rest) s ≡ some (goes_on (l ++ 0 ∷ rest) s3)
  unfolding obey
  obey_runs [] rest rval s s2 s3 plain some_text other is says = absurd (some_text refl)
  obey_runs (c ∷ l) rest rval s s2 s3 plain some_text other is says =
      let (z, differs, off) =
        strcmp_differ (c ∷ l) (chars "exit") rest [] plain (no_nul-NoNul (chars "exit") refl)
          other in
      rw (differs, ◌>>=◌, off, ne→== c 0 plain.0, is, ◌>>=◌, says, ◌>>=◌) refl

  round_obeys :
      (l buf : List ℕ) (s s' : S)
      → Reads l s s'
      → shell_round sys buf s ≡ obey sys (l ++ 0 ∷ drop (length (l ++ 0x0a ∷ [])) buf) s'
  unfolding shell_round
  round_obeys l buf s s' r =
      let well : eqb_ℤ (pos (length l + 1)) minus_one ≡ false = ground arith in
      rw (r.prompt, ◌>>=◌, r.reads, ◌>>=◌, well, end_line-feed l buf, ◌>>=◌) refl

  unreadable_round :
      (out buf : List ℕ) (s s1 s2 t : S)
      → ece391_fdputs sys (pos 1) (c_string "391OS> ") s ≡ some s1
      → sys.ece391_read (pos 0) (pos 1023) s1 ≡ some (minus_one, out, s2)
      → ece391_fdputs sys (pos 1) (c_string "read from keyboard failed\n") s2 ≡ some t
      → shell_round sys buf s ≡ some (ends 3 t)
  unfolding shell_round
  unreadable_round out buf s s1 s2 t prompt failed says =
      rw (prompt, ◌>>=◌, failed, ◌>>=◌, says, ◌>>=◌) refl

  Session-loop :
      (lines : List (List ℕ)) (fuel : ℕ) (buf : List ℕ) (s t : S) (value : ℕ)
      → length lines < fuel
      → Session lines s value t
      → shell_loop sys fuel buf s ≡ some (value, t)
  unfolding shell_loop
  Session-loop lines zero buf s t value enough run = elim enough [ ]
  Session-loop _ (suc fuel) buf _ _ _ enough (quit s t r) =
      rw
        (
          round_obeys (chars "exit") buf s t r,
          obey-exit (drop (length (chars "exit" ++ 0x0a ∷ [])) buf) t,
          ◌>>=◌,
        )
        refl
  Session-loop _ (suc fuel) buf _ _ _ enough (nothing lines s s1 t value r more) =
      rw (round_obeys [] buf s s1 r, obey_nothing (drop (length {A = ℕ} (0x0a ∷ [])) buf) s1, ◌>>=◌)
        (Session-loop lines fuel _ s1 t value (omega arith) more)
  Session-loop _ (suc fuel) buf _ _ _ enough
        (runs l lines rval s s1 s2 s3 t value r some_text other is says more) =
      let rest : List ℕ = drop (length (l ++ 0x0a ∷ [])) buf in
      rw
        (
          round_obeys l buf s s1 r,
          obey_runs l rest rval s1 s2 s3 r.is_line.text some_text other (is rest)
              (say_result-Says rval s2 s3 says),
          ◌>>=◌,
        )
        (Session-loop lines fuel _ s3 t value (omega arith) more)
  Session-loop _ (suc fuel) buf _ _ _ enough (unreadable out s s1 s2 t prompt failed says) =
      rw (unreadable_round out buf s s1 s2 t prompt failed says, ◌>>=◌) refl

  -- The shell runs a session as its lines say: it ends, with the value and the state of the
  -- session. For each line, in order, it shows the prompt, reads the line, and does nothing for an
  -- empty one, returns 0 for "exit", and runs any other as a command and says nothing of a result
  -- of 0, "no such command" of -1, "program terminated by exception" of 256 and "program terminated
  -- abnormally" of any other; it returns 3 when a read fails. As many rounds as there are lines,
  -- and one, are enough, and the buffer may hold anything at the start.
  pub shell-Session :
      (lines : List (List ℕ)) (fuel : ℕ) (buf : List ℕ) (s s' t : S) (value : ℕ)
      → length lines < fuel
      → ece391_fdputs sys (pos 1) (c_string "Starting 391 Shell\n") s ≡ some s'
      → Session lines s' value t
      → shell sys fuel buf s ≡ some (value, t)
  unfolding shell
  shell-Session lines fuel buf s s' t value enough greets run =
      rw (greets, ◌>>=◌) (Session-loop lines fuel buf s' t value enough run)
