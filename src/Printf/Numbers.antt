-- ===== src/Printf/Numbers.antt =====
-- The numerals of `printf` in student-distrib/lib.c.
use my_linux_os.Common.{
  ℕ, zero, suc, ◌+◌, ◌-◌, ◌^◌, ◌%◌, ◌≤◌, ◌<◌, ◌≡◌, ◌≢◌, refl, sym, ap, ◌∙◌, List, [], ◌∷◌, ◌++◌,
  some, true, false, ltb, ◌>>=◌, drop, take, replicate, length, length-drop, length-append,
  length-replicate, All, arith,
}
use mathlib.Core.List.{append_assoc}
use my_linux_os.Common.Int.{ℤ, pos, negsuc, unsigned32}
use my_linux_os.Str.{itoa}
use my_linux_os.Str.Length.{NoNul, strlen_text}
use my_linux_os.Str.Digits.{number, IsDigit, Numeral}
use my_linux_os.Str.Number.{itoa_within}
use my_linux_os.Printf.{padded_hex, signed_text, number_text}
use my_linux_os.Printf.Pieces.{signed, Fits, Shows}

NoNul-zeros : (n : ℕ) (s : List ℕ) → NoNul s → NoNul (replicate n 0x30 ++ s)
NoNul-zeros zero s nonul = nonul
NoNul-zeros (suc n) s nonul = (omega arith, NoNul-zeros n s nonul)

number-zeros : (n : ℕ) (s : List ℕ) → number 16 (replicate n 0x30 ++ s) ≡ number 16 s
number-zeros zero s = refl
number-zeros (suc n) s = number-zeros n s

digits-zeros : (n : ℕ) (s : List ℕ) → All (IsDigit 16) s → All (IsDigit 16) (replicate n 0x30 ++ s)
digits-zeros zero s h = h
digits-zeros (suc n) s h = ((0, omega arith, refl), digits-zeros n s h)

append-ne-nil : (a b : List ℕ) → b ≢ [] → a ++ b ≢ []
append-ne-nil [] b h e = h e
append-ne-nil (x ∷ a) b h e = omega (arith, ap length e)

drop_none : (n : ℕ) (s : List ℕ) → n ≤ 8 → drop (n - 8) s ≡ s
drop_none n s h = ap (λ k. drop k s) (none_of n h)
  where
    none_of : (n : ℕ) → n ≤ 8 → n - 8 ≡ 0
    none_of n h = omega arith

-- A hexadecimal number with zeros in front.
pub padded_hex_lem :
    (conv_buf : List ℕ) (v : ℕ)
    → v < 2 ^ 32
    → 16 < length conv_buf
    → (t rest : List ℕ) × (padded_hex conv_buf v ≡ some (t ++ 0 ∷ rest))
      × NoNul t
      × Numeral 16 v t
      × (length t ≡ 8)
unfolding padded_hex
padded_hex_lem conv_buf v small room =
    let (ds, run, nonul, numeral, short, fits) =
      itoa_within v (drop 8 conv_buf) 16 8 (omega arith) (omega arith) (omega arith) (omega arith)
        (omega (arith, length-drop 8 conv_buf)) in
    let rest = drop (suc (length ds)) (drop 8 conv_buf) in
    let zeros : List ℕ = replicate (8 - length ds) 0x30 in
    (
      zeros ++ ds,
      rest,
      rw (run, ◌>>=◌, strlen_text ds rest nonul, ◌>>=◌, drop_none (length ds) (ds ++ 0 ∷ rest) fits)
          (ap (λ t. some t) (sym (append_assoc zeros ds (0 ∷ rest)))),
      NoNul-zeros (8 - length ds) ds nonul,
      record {
        digits = digits-zeros (8 - length ds) ds numeral.digits;
        value = number-zeros (8 - length ds) ds ∙ numeral.value;
        some_digit = append-ne-nil zeros ds numeral.some_digit;
      },
      length-append zeros ds ∙ (omega (arith, length-replicate {A = ℕ} (8 - length ds) 0x30)),
    )

module _ (stack : List ℕ) where
  pub number_text-hex : (v : ℕ) → number_text stack false 0x78 v ≡ itoa v (take 64 stack) 16
  unfolding number_text
  number_text-hex v = refl

  pub number_text-hex8 : (v : ℕ) → number_text stack true 0x78 v ≡ padded_hex (take 64 stack) v
  unfolding number_text
  number_text-hex8 v = refl

  pub number_text-unsigned : (v : ℕ) → number_text stack false 0x75 v ≡ itoa v (take 36 stack) 10
  unfolding number_text
  number_text-unsigned v = refl

  pub number_text-signed : (v : ℕ) → number_text stack false 0x64 v ≡ signed_text (take 36 stack) v
  unfolding number_text
  number_text-signed v = refl

pub signed_text_lem :
    (z : ℤ) (conv_buf : List ℕ)
    → Fits (signed z)
    → 12 < length conv_buf
    → (t rest : List ℕ) × (signed_text conv_buf (unsigned32 z) ≡ some (t ++ 0 ∷ rest))
      × NoNul t
      × Shows (signed z) t
unfolding signed_text
signed_text_lem z [] fits room = absurd (omega arith)
signed_text_lem (pos n) (b ∷ conv_buf) fits room =
    let (t, run, nonul, numeral, short, _) =
      itoa_within n (b ∷ conv_buf) 10 10 (omega arith) (omega arith) (omega arith) (omega arith)
        (omega arith) in
    let same : n % 2 ^ 32 ≡ n = omega arith in
    let below : ltb n (2 ^ 31) ≡ true = ground arith in
    (t, drop (suc (length t)) (b ∷ conv_buf), rw (same, below) run, nonul, (numeral, short))
signed_text_lem (negsuc n) (b ∷ conv_buf) fits room =
    let (t, run, nonul, numeral, short, _) =
      itoa_within (n + 1) conv_buf 10 10 (omega arith) (omega arith) (omega arith) (omega arith)
        (omega arith) in
    let above : ltb (2 ^ 32 - 1 - n % 2 ^ 32) (2 ^ 31) ≡ false = ground arith in
    let minus : 2 ^ 32 - (2 ^ 32 - 1 - n % 2 ^ 32) ≡ n + 1 = omega arith in
    (
      0x2d ∷ t,
      drop (suc (length t)) conv_buf,
      rw (above, minus, run, ◌>>=◌) refl,
      (omega arith, nonul),
      (t, refl, (numeral, short)),
    )
