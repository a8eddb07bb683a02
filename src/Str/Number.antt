-- ===== src/Str/Number.antt =====
-- `itoa` and the value of a numeral.
use mathlib.Core.List.{reverse, reverse-cons}
use my_linux_os.Common.{
  ℕ, zero, suc, ◌+◌, ◌*◌, ◌/◌, ◌%◌, ◌^◌, ◌≤◌, ◌<◌, ◌≡◌, refl, sym, ap, subst, ◌∙◌, ◌≢◌, List, [],
  ◌∷◌, ◌++◌, Option, some, none, Bool, true, false, ◌&&◌, arith, length, length-reverse, drop, All,
  get_elem?, ◌==◌, Bool-cases, ◌⊎◌, inl, inr,
}
use native.Mathlib.Nat.{
  pow-zero, pow-suc, div-add-mod, mod-lt, div-lt_iff_lt-mul, pow-le-pow_left, mul-le-mul_right,
}
use my_linux_os.Str.{itoa, put_digits, lookup}
use my_linux_os.Str.Digits.{
  digit_value, digit_char, number_from, number, IsDigit, Numeral, IsShortest,
}
use my_linux_os.Str.Length.{NoNul}
use my_linux_os.Str.Reverse.{strrev_text}

-- The same, least significant digit first.
abbrev lsb_number : ℕ → List ℕ → ℕ
lsb_number radix [] = 0
lsb_number radix (c ∷ s) = lsb_number radix s * radix + digit_value c

number_from-snoc :
    (radix acc : ℕ) (s : List ℕ) (c : ℕ)
    → number_from radix acc (s ++ c ∷ []) ≡ number_from radix acc s * radix + digit_value c
number_from-snoc radix acc [] c = refl
number_from-snoc radix acc (d ∷ s) c = number_from-snoc radix (acc * radix + digit_value d) s c

number-reverse : (radix : ℕ) (s : List ℕ) → number radix (reverse s) ≡ lsb_number radix s
number-reverse radix [] = refl
number-reverse radix (c ∷ s) =
    ap (number radix) (reverse-cons c s)
    ∙ (number_from-snoc radix 0 (reverse s) c
        ∙ ap (λ (v : ℕ). v * radix + digit_value c) (number-reverse radix s))

holds : Option ℕ → ℕ → Bool
holds none c = false
holds (some b) c = b == c

found : (o : Option ℕ) (c : ℕ) → holds o c ≡ true → o ≡ some c
unfolding holds
found none c h = ground arith
found (some b) c h = ground arith

lookup_is : ℕ → Bool
lookup_is d = holds (get_elem? lookup d) (digit_char d)

lookup_upto : ℕ → Bool
lookup_upto zero = true
lookup_upto (suc n) = lookup_is n && lookup_upto n

lookup_table : lookup_upto 36 ≡ true
unfolding lookup_upto lookup_is holds
lookup_table = refl

lookup_sound : (n d : ℕ) → lookup_upto n ≡ true → d < n → lookup_is d ≡ true
unfolding lookup_upto
lookup_sound zero d h k = absurd (omega arith)
lookup_sound (suc n) d h k = ground (arith, lookup_sound n d)

lookup_digit : (d : ℕ) → d < 36 → get_elem? lookup d ≡ some (digit_char d)
unfolding lookup_is
lookup_digit d h = found (get_elem? lookup d) (digit_char d) (lookup_sound 36 d lookup_table h)

digit_value-char : (d : ℕ) → d < 36 → (digit_value (digit_char d) ≡ d) × (digit_char d ≢ 0)
digit_value-char d h = (ground arith, ground arith)

-- What the digit loop leaves: digits that stand for the number, and the null.
abbrev Prints : ℕ → ℕ → ℕ → List ℕ → Type 0
Prints radix v k buf =
    (ds : List ℕ) × (put_digits buf v radix ≡ some (ds ++ 0 ∷ drop (suc (length ds)) buf))
    × NoNul ds
    × All (IsDigit radix) ds
    × (lsb_number radix ds ≡ v)
    × (length ds ≤ k)
    × (((v ≡ 0) × (length ds ≡ 0)) ⊎ ((ds ≢ []) × (radix ^ length ds ≤ v * radix)))

div_smaller : (radix v k : ℕ) → 2 ≤ radix → v < radix ^ suc k → v / radix < radix ^ k
div_smaller radix v k hr h =
    (div-lt_iff_lt-mul (omega arith)).1 (subst (λ p. v < p) (pow-suc radix k) h)

-- One digit more makes up for one more power of the base.
one_longer :
    (radix v n : ℕ)
    → 2 ≤ radix
    → v ≢ 0
    → ((v / radix ≡ 0) × (n ≡ 0)) ⊎ (radix ^ n ≤ v / radix * radix)
    → radix ^ suc n ≤ v * radix
one_longer radix v n hr some_value (inl (small, none_behind)) =
    subst (λ (k : ℕ). radix ^ suc k ≤ v * radix) (sym none_behind)
      (subst (λ (p : ℕ). p ≤ v * radix)
        (sym (pow-suc radix 0 ∙ ap (λ (q : ℕ). q * radix) (pow-zero radix)))
        (mul-le-mul_right {m = 1} {n = v} radix (omega arith)))
one_longer radix v n hr some_value (inr h) =
    subst (λ (p : ℕ). p ≤ v * radix) (sym (pow-suc radix n))
      (mul-le-mul_right {m = radix ^ n} {n = v} radix (omega (arith, h, div-add-mod v radix)))

put_digits-Prints :
    (radix v k : ℕ) (buf : List ℕ)
    → 2 ≤ radix
    → radix ≤ 36
    → v < radix ^ k
    → k < length buf
    → Prints radix v k buf
unfolding put_digits
put_digits-Prints radix v k [] hr hs hv hk = absurd (omega arith)
put_digits-Prints radix v zero (b ∷ buf) hr hs hv hk =
    let z : v ≡ 0 = omega (arith, pow-zero radix) in
    ([], rw z, tt, tt, omega arith, omega arith, inl (z, refl))
put_digits-Prints radix v (suc k) (b ∷ buf) hr hs hv hk = elim (Bool-cases (v == 0)) [
  | inl z ↦ ([], rw z, tt, tt, ground arith, omega arith, inl (ground arith, refl))
  | inr more ↦
      let (ds, run, nonul, digits, val, len, rest) =
        put_digits-Prints radix (v / radix) k buf hr hs (div_smaller radix v k hr hv)
          (omega arith) in
      let small : v % radix < 36 = omega (arith, mod-lt v {m = radix} (omega arith)) in
      let dv = digit_value-char (v % radix) small in
      (
        digit_char (v % radix) ∷ ds,
        rw (more, lookup_digit (v % radix) small, run),
        (dv.1, nonul),
        ((v % radix, mod-lt v {m = radix} (omega arith), refl), digits),
        omega (arith, dv.0, ap (λ (t : ℕ). t * radix) val, div-add-mod v radix),
        omega arith,
        inr (
          (λ e. cc),
          one_longer radix v (length ds) hr (ground (arith, more))
              (elim rest [ inl none_left ↦ inl none_left | inr q ↦ inr q.1 ]),
        ),
      )
]

NoNul-snoc : (s : List ℕ) (c : ℕ) → NoNul s → c ≢ 0 → NoNul (s ++ c ∷ [])
NoNul-snoc [] c h k = (k, tt)
NoNul-snoc (d ∷ s) c h k = (h.0, NoNul-snoc s c h.1 k)

NoNul-reverse : (s : List ℕ) → NoNul s → NoNul (reverse s)
NoNul-reverse [] h = tt
NoNul-reverse (c ∷ s) h = rw (reverse-cons c s) (NoNul-snoc (reverse s) c (NoNul-reverse s h.1) h.0)

All-snoc : (P : ℕ → Type 0) (s : List ℕ) (c : ℕ) → All P s → P c → All P (s ++ c ∷ [])
All-snoc P [] c h k = (k, tt)
All-snoc P (d ∷ s) c h k = (h.0, All-snoc P s c h.1 k)

All-reverse : (P : ℕ → Type 0) (s : List ℕ) → All P s → All P (reverse s)
All-reverse P [] h = tt
All-reverse P (c ∷ s) h = rw (reverse-cons c s) (All-snoc P (reverse s) c (All-reverse P s h.1) h.0)

reverse-ne-nil : (s : List ℕ) → s ≢ [] → reverse s ≢ []
reverse-ne-nil [] h e = h refl
reverse-ne-nil (c ∷ s) h e = omega (arith, length-reverse (c ∷ s), ap length e)

-- `itoa` of a number that has at most `k` digits.
pub itoa_within :
    (value : ℕ) (buf : List ℕ) (radix k : ℕ)
    → value < radix ^ k
    → 0 < k
    → 2 ≤ radix
    → radix ≤ 36
    → k < length buf
    → (text : List ℕ) × (itoa value buf radix ≡ some (text ++ 0 ∷ drop (suc (length text)) buf))
      × NoNul text
      × Numeral radix value text
      × IsShortest radix value text
      × (length text ≤ k)
unfolding itoa
itoa_within value [] radix k hv hk hr hs hb = absurd (omega arith)
itoa_within value (b ∷ []) radix k hv hk hr hs hb = absurd (omega arith)
itoa_within value (b ∷ c ∷ buf) radix k hv hk hr hs hb = elim (Bool-cases (value == 0)) [
  | inl z ↦ (
    0x30 ∷ [],
    rw z,
    ((λ e. omega arith), tt),
    record { digits = ((0, omega arith, refl), tt); value = ground arith; some_digit = λ e. cc },
    inl refl,
    omega arith,
  )
  | inr more ↦
      let (ds, run, nonul, digits, val, len, rest) =
        put_digits-Prints radix value k (b ∷ c ∷ buf) hr hs hv (omega arith) in
      (
        reverse ds,
        ground (
          arith,
          run,
          strrev_text ds (drop (suc (length ds)) (b ∷ c ∷ buf)) nonul,
          length-reverse ds,
        ),
        NoNul-reverse ds nonul,
        record {
          digits = All-reverse (IsDigit radix) ds digits;
          value = number-reverse radix ds ∙ val;
          some_digit =
              reverse-ne-nil ds (elim rest [ inl none_left ↦ absurd (ground arith) | inr q ↦ q.0 ]);
        },
        elim rest [
          | inl none_left ↦ absurd (ground arith)
          | inr q ↦ inr (omega (arith, q.1, ap (λ n. radix ^ n) (length-reverse ds)))
        ],
        omega (arith, length-reverse ds),
      )
]

-- On a buffer of more than 32 bytes `itoa` writes a numeral, a null behind it and nothing else: the
-- numeral is made of digits of the base, `0` to `9` and then `A` to `Z`, has no zero in front, and
-- stands for the value in that base, for every 32-bit value and every base from 2 to 36.
pub itoa-number :
    (value : ℕ) (buf : List ℕ) (radix : ℕ)
    → value < 2 ^ 32
    → 2 ≤ radix
    → radix ≤ 36
    → 32 < length buf
    → (text : List ℕ) × (itoa value buf radix ≡ some (text ++ 0 ∷ drop (suc (length text)) buf))
      × NoNul text
      × Numeral radix value text
      × IsShortest radix value text
      × (length text ≤ 32)
itoa-number value buf radix hv hr hs hb =
    itoa_within value buf radix 32 (omega (arith, pow-le-pow_left hr 32)) (omega arith) hr hs hb
