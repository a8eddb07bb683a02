-- ===== src/Rtc/Frequency.antt =====
-- Which frequencies the clock takes, and what it writes for them.
use my_linux_os.Common.{
  ℕ, zero, suc, ◌+◌, ◌-◌, ◌*◌, ◌%◌, ◌^◌, ◌≤◌, ◌<◌, ◌≡◌, refl, ◌∙◌, ◌≢◌, ◌⊎◌, inl, inr, bit_and,
  bit_or, List, [], ◌∷◌, ◌++◌, replicate, none, some, Bool, true, false, not, ◌==◌, ltb,
  if◌then◌else◌, arith, Bool-cases, Option-cases, ==_iff,
}
use my_linux_os.Common.Int.{ℤ, pos, minus_one, eqb_ℤ_iff, signed32}
use my_linux_os.Common.Table.{holds_below, below_holds}
use my_linux_os.Io.{Io, out, outb, cli, sti}
use my_linux_os.Rtc.{
  Rtc, rate_of, set_freq_rtc, bad_frequency, write_rtc, wait_rtc, read_rtc, rtc_handler, rtc_data,
  rtc_port, status_a,
}

-- A power of two from 2 to 1024.
abbrev pub IsRate : ℕ → Type 0
IsRate n = (k : ℕ) × (1 ≤ k) × (k ≤ 10) × (n ≡ 2 ^ k)

-- The clock divides 32768 Hz by 2 ^ (rate - 1).
rate_divides : (n r : ℕ) → rate_of (pos n) ≡ some r → (n * 2 ^ (r - 1) ≡ 32768) × (r < 16)
unfolding rate_of
rate_divides n r h = ground arith

agree : ℕ → Bool
agree n = elim (rate_of (pos n)) [
  | none ↦ bad_frequency (pos n)
  | some r ↦ not (bad_frequency (pos n))
]

agree_table : holds_below 1025 agree ≡ true
unfolding holds_below agree rate_of bad_frequency
agree_table = refl

rate_is_log : (n r : ℕ) → rate_of (pos n) ≡ some r → (n ≡ 2 ^ (16 - r)) × (6 ≤ r) × (r ≤ 15)
unfolding rate_of
rate_is_log n r h = ground arith

power_has_rate : ℕ → Bool
power_has_rate k = elim (rate_of (pos (2 ^ (k + 1)))) [ none ↦ false | some r ↦ true ]

powers_table : holds_below 10 power_has_rate ≡ true
unfolding holds_below power_has_rate rate_of
powers_table = refl

unlisted-IsRate : (n : ℕ) → rate_of (pos n) ≡ none → ¬ IsRate n
unfolding power_has_rate
unlisted-IsRate n h (k, lo, hi, e) =
    let has = below_holds 10 power_has_rate (k - 1) powers_table (omega arith) in
    let back : k - 1 + 1 ≡ k = omega arith in
    let none_of : rate_of (pos (2 ^ (k - 1 + 1))) ≡ none = rw (back, ← e) h in
    ground (arith, has, none_of)

-- The test of `write_rtc` lets exactly those frequencies through that the switch has a rate for.
good_iff_rate : (n : ℕ) → n < 1025 → agree n ≡ true
good_iff_rate n h = below_holds 1025 agree n agree_table h

large_is_bad : (n : ℕ) → 1024 < n → (bad_frequency (pos n) ≡ true) × (rate_of (pos n) ≡ none)
unfolding bad_frequency rate_of
large_is_bad n h = (ground arith, ground arith)

frequency_cases :
    (n : ℕ)
    → ((r : ℕ) × (rate_of (pos n) ≡ some r) × (bad_frequency (pos n) ≡ false))
      ⊎ ((rate_of (pos n) ≡ none) × (bad_frequency (pos n) ≡ true))
unfolding agree
frequency_cases n = elim (Bool-cases (ltb 1024 n)) [
  | inl big ↦ let (bad, no_rate) = large_is_bad n (ground arith) in inr (no_rate, bad)
  | inr small ↦ elim (Option-cases (rate_of (pos n))) [
    | inl e ↦ inr (e, ground (arith, e, good_iff_rate n))
    | inr (r, e) ↦ inl (r, e, ground (arith, e, good_iff_rate n))
  ]
]

keeps_low : ℕ → ℕ → Bool
keeps_low g r = (bit_or (bit_and g 0xf0) r % 256 % 16) == r

low_table : (holds_below 256 λ g. holds_below 16 λ r. keeps_low g r) ≡ true
unfolding holds_below keeps_low
low_table = refl

low_bits : (g r : ℕ) → g < 256 → r < 16 → bit_or (bit_and g 0xf0) r % 256 % 16 ≡ r
low_bits g r hg hr =
    unfold keeps_low in
    (==_iff _ _).0 (
      below_holds 16 (keeps_low g) r
        (below_holds 256 (λ g. holds_below 16 (keeps_low g)) g low_table hg) hr)

-- The selection of register A and the byte written to it for a rate.
abbrev pub rate_written : ℕ → ℕ → Io → Io
rate_written g r io = outb (bit_or (bit_and g 0xf0) r % 256) rtc_data (outb status_a rtc_port io)

set_freq_rtc_rate :
    (g n r : ℕ) (io : Io)
    → rate_of (pos n) ≡ some r
    → set_freq_rtc g (pos n) io ≡ (pos 0, sti (rate_written g r io))
unfolding set_freq_rtc
set_freq_rtc_rate g n r io e = rw (e, set_freq_rtc)

rate_small : (n r : ℕ) → rate_of (pos n) ≡ some r → n < 2 ^ 31
unfolding rate_of
rate_small n r h = ground arith

-- A power of two from 2 to 1024, given in four bytes, is accepted: `write_rtc` returns 0, has written
-- to register A a rate at which 32768 Hz divide down to it, whatever was in the uninitialised
-- variable, and leaves interrupts on.
pub write_rtc_accepts :
    (g word : ℕ) (io : Io)
    → g < 256
    → IsRate word
    → (v : ℕ) × (write_rtc g word (pos 4) io ≡ (
      pos 0,
      record { log = out v rtc_data ∷ out status_a rtc_port ∷ io.log; interrupts = true },
    ))
      × (word * 2 ^ (v % 16 - 1) ≡ 32768)
unfolding write_rtc
write_rtc_accepts g word io hg (k, lo, hi, e) = elim (frequency_cases word) [
  | inr (no_rate, _) ↦ absurd (unlisted-IsRate word no_rate (k, lo, hi, e))
  | inl (r, rate, good) ↦
      let sign : signed32 word ≡ pos word = ground (arith, rate_small word r rate) in
      (
        bit_or (bit_and g 0xf0) r % 256,
        rw sign (rw (good, set_freq_rtc_rate g word r (cli io) rate)),
        rw (low_bits g r hg (rate_divides word r rate).1) (rate_divides word r rate).0,
      )
]

bad_word : (word : ℕ) → ¬ IsRate word → bad_frequency (signed32 word) ≡ true
bad_word word no_rate = elim (Bool-cases (ltb word (2 ^ 31))) [
  | inl small ↦ rw small (elim (frequency_cases word) [
    | inl (r, rate, _) ↦
        let (e, lo, hi) = rate_is_log word r rate in
        absurd (no_rate (16 - r, omega arith, omega arith, e))
    | inr (_, bad) ↦ bad
  ])
  | inr large ↦ unfold bad_frequency in rw large
]

-- Any other word, or any other length, is refused: `write_rtc` returns -1, writes nothing to the
-- ports and leaves interrupts on.
pub write_rtc_refuses :
    (g word : ℕ) (nbytes : ℤ) (io : Io)
    → word < 2 ^ 32
    → (¬ IsRate word) ⊎ (nbytes ≢ pos 4)
    → write_rtc g word nbytes io ≡ (minus_one, sti io)
unfolding write_rtc
write_rtc_refuses g word nbytes io hw (inl no_rate) = rw (bad_word word no_rate)
write_rtc_refuses g word nbytes io hw (inr other) = ground (arith, eqb_ℤ_iff nbytes (pos 4))

five_twelve : rate_of (pos 512) ≡ some 7
unfolding rate_of
five_twelve = refl

wait_rtc_flag :
    (turns : List Bool) (rtc : Rtc) (io : Io)
    → rtc.interrupt_flag ≢ 0
    → wait_rtc turns rtc io ≡ some (rtc, io)
unfolding wait_rtc
wait_rtc_flag [] rtc io h = ground arith
wait_rtc_flag (t ∷ turns) rtc io h = ground arith

wait_rtc_step :
    (t : Bool) (turns : List Bool) (rtc : Rtc) (io : Io)
    → rtc.interrupt_flag ≡ 0
    → wait_rtc (t ∷ turns) rtc io
      ≡ (let next = if t then rtc_handler rtc io else (rtc, io) in wait_rtc turns next.0 next.1)
unfolding wait_rtc
wait_rtc_step true turns rtc io h = ground arith
wait_rtc_step false turns rtc io h = ground arith

handler_sets : (rtc : Rtc) (io : Io) → (rtc_handler rtc io).0.interrupt_flag ≢ 0
unfolding rtc_handler
handler_sets rtc io e = omega arith

wait_rtc_turns :
    (k : ℕ) (rest : List Bool) (rtc : Rtc) (io : Io)
    → rtc.interrupt_flag ≡ 0
    → wait_rtc (replicate k false ++ true ∷ rest) rtc io ≡ some (rtc_handler rtc io)
wait_rtc_turns zero rest rtc io h =
    wait_rtc_step true rest rtc io h
    ∙ wait_rtc_flag rest (rtc_handler rtc io).0 (rtc_handler rtc io).1 (handler_sets rtc io)
wait_rtc_turns (suc k) rest rtc io h =
    wait_rtc_step false (replicate k false ++ true ∷ rest) rtc io h ∙ wait_rtc_turns k rest rtc io h

wait_rtc_blocks :
    (k : ℕ) (rtc : Rtc) (io : Io)
    → rtc.interrupt_flag ≡ 0
    → wait_rtc (replicate k false) rtc io ≡ none
wait_rtc_blocks zero rtc io h = unfold wait_rtc in ground arith
wait_rtc_blocks (suc k) rtc io h =
    wait_rtc_step false (replicate k false) rtc io h ∙ wait_rtc_blocks k rtc io h

-- While the flag is 0, `read_rtc` waits: it returns 0 at the first turn in which the clock
-- interrupts, with the interrupt handled and the flag cleared, and not before.
pub read_rtc_waits :
    (g k : ℕ) (rest : List Bool) (rtc : Rtc) (io : Io)
    → rtc.interrupt_flag ≡ 0
    → let (rtc', io') = rtc_handler rtc (set_freq_rtc g (pos 512) (sti io)).1 in
      (read_rtc g (replicate k false ++ true ∷ rest) rtc io
        ≡ some (pos 0, record rtc' { interrupt_flag = 0 }, io'))
      × (read_rtc g (replicate k false) rtc io ≡ none)
unfolding read_rtc
read_rtc_waits g k rest rtc io h = (
  rw (wait_rtc_turns k rest rtc (set_freq_rtc g (pos 512) (sti io)).1 h),
  rw (wait_rtc_blocks k rtc (set_freq_rtc g (pos 512) (sti io)).1 h),
)

-- When the flag is set, `read_rtc` returns 0 at once and clears it; it has set the clock to 512 Hz,
-- whatever byte was in the uninitialised variable, and leaves interrupts on.
read_rtc_at_once :
    (g : ℕ) (turns : List Bool) (rtc : Rtc) (io : Io)
    → g < 256
    → rtc.interrupt_flag ≢ 0
    → (v : ℕ) × (read_rtc g turns rtc io
        ≡ some (
          pos 0,
          record rtc { interrupt_flag = 0 },
          record { log = out v rtc_data ∷ out status_a rtc_port ∷ io.log; interrupts = true },
        ))
      × (512 * 2 ^ (v % 16 - 1) ≡ 32768)
unfolding read_rtc
read_rtc_at_once g turns rtc io hg h = (
  bit_or (bit_and g 0xf0) 7 % 256,
  rw (set_freq_rtc_rate g 512 7 (sti io) five_twelve)
      (rw (wait_rtc_flag turns rtc (sti (rate_written g 7 (sti io))) h)),
  rw (low_bits g 7 hg (omega arith)),
)
