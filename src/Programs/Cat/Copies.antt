-- ===== src/Programs/Cat/Copies.antt =====
-- `cat` on any system whose reads give a file piece by piece and whose writes show text.
use my_linux_os.Common.{
  ℕ, zero, suc, ◌<◌, ◌≡◌, refl, sym, ap, ◌∙◌, List, [], ◌∷◌, ◌++◌, some, overwrite, length, take,
  drop, length-drop, arith, ◌>>=◌, false,
}
use my_linux_os.Common.Int.{ℤ, pos, minus_one, eqb_ℤ}
use my_linux_os.Programs.{System}
use my_linux_os.Programs.Cat.{copy_file}

-- What `cat` relies on: `Left bytes s` says that in `s` the bytes left to read at the descriptor are
-- `bytes`, and `view s` is what the user sees, to which a write adds.
pub record Streams {S : Type 0} (sys : System S) (fd : ℤ) : Type 1 where
  pub View : Type 0
  pub view : S → View
  pub show : List ℕ → View → View
  pub show_none : (v : View) → show [] v ≡ v
  pub show_two : (a b : List ℕ) (v : View) → show b (show a v) ≡ show (a ++ b) v
  pub Left : List ℕ → S → Type 0
  pub read_law :
      (bytes : List ℕ) (s : S)
      → Left bytes s
      → (s' : S) × (sys.ece391_read fd (pos 1024) s
          ≡ some (pos (length (take 1024 bytes)), take 1024 bytes, s'))
        × Left (drop 1024 bytes) s'
        × (view s' ≡ view s)
  pub write_law :
      (bytes text more : List ℕ) (s : S)
      → Left bytes s
      → (s' : S) × (sys.ece391_write (pos 1) (text ++ more) (pos (length text)) s
          ≡ some (pos 0, s'))
        × Left bytes s'
        × (view s' ≡ show text (view s))

take-drop : (n : ℕ) (xs : List ℕ) → take n xs ++ drop n xs ≡ xs
take-drop zero xs = refl
take-drop (suc n) [] = refl
take-drop (suc n) (x ∷ xs) = ap (λ (t : List ℕ). x ∷ t) (take-drop n xs)

some_read :
    (c n : ℕ) (bytes : List ℕ) → eqb_ℤ (pos (length (take (suc n) (c ∷ bytes)))) (pos 0) ≡ false
some_read c n bytes = ground arith

read_well : (n : ℕ) → eqb_ℤ (pos n) minus_one ≡ false
read_well n = ground arith

module _ {S : Type 0} (sys : System S) (fd : ℤ) (io : Streams sys fd) where
  -- The loop of `cat` ends and returns 0, and what it has shown is what was left of the file, in order:
  -- as many rounds as the file has bytes left, and one, are enough.
  pub copy_file-shows :
      (fuel : ℕ) (bytes buf : List ℕ) (s : S)
      → length bytes < fuel
      → io.Left bytes s
      → (s' : S) × (copy_file sys fuel fd buf s ≡ some (0, s'))
        × io.Left [] s'
        × (io.view s' ≡ io.show bytes (io.view s))
  unfolding copy_file
  copy_file-shows zero bytes buf s enough left = elim enough [ ]
  copy_file-shows (suc fuel) [] buf s enough left =
      let (s1, is, rest, same) = io.read_law [] s left in
      (s1, rw (is, ◌>>=◌) refl, rest, same ∙ sym (io.show_none (io.view s)))
  copy_file-shows (suc fuel) (c ∷ bytes) buf s enough left =
      let piece : List ℕ = take 1024 (c ∷ bytes) in
      let (s1, is, rest, same) = io.read_law (c ∷ bytes) s left in
      let (s2, wrote, still, seen) =
        io.write_law (drop 1024 (c ∷ bytes)) piece (drop (length piece) buf) s1 rest in
      let (s3, ends, gone, all) =
        copy_file-shows fuel (drop 1024 (c ∷ bytes)) (overwrite piece buf) s2
          (omega (arith, length-drop 1024 (c ∷ bytes))) still in
      (
        s3,
        rw (is, ◌>>=◌, some_read c 1023 bytes, read_well (length piece), wrote, ◌>>=◌) ends,
        gone,
        all
            ∙ ap (io.show (drop 1024 (c ∷ bytes))) (seen ∙ ap (io.show piece) same)
            ∙ io.show_two piece (drop 1024 (c ∷ bytes)) (io.view s)
            ∙ ap (λ (t : List ℕ). io.show t (io.view s)) (take-drop 1024 (c ∷ bytes)),
      )
