-- ===== src/Rtc.antt =====
-- student-distrib/rtc.c: the real-time clock, and student-distrib/scheduler.c: the timer's set-up.
-- A value that the device answers, or that a variable holds before it is set, is an argument.
pub mod Frequency
mod Tests
use my_linux_os.Common.{
  ℕ, zero, suc, ◌+◌, ◌-◌, ◌*◌, ◌/◌, ◌%◌, ◌^◌, bit_and, bit_or, List, [], ◌∷◌, Option, none, some,
  Bool, true, false, ◌&&◌, ◌||◌, not, ◌==◌, ltb, if◌then◌else◌, ◌>>=◌,
}
use my_linux_os.Common.Int.{ℤ, pos, negsuc, minus_one, ltb_ℤ, eqb_ℤ, signed32}
use my_linux_os.Io.{Io, outb, inb, cli, sti}
use my_linux_os.Pic.{Pic, enable_irq, send_eoi}

abbrev pub rtc_port : ℕ
rtc_port = 0x70

abbrev pub rtc_data : ℕ
rtc_data = 0x71

abbrev pub rtc_irq : ℕ
rtc_irq = 8

abbrev pub status_a : ℕ
status_a = 0x8a

abbrev pub status_b : ℕ
status_b = 0x8b

abbrev pub status_c : ℕ
status_c = 0x8c

-- The globals `prev` and `interrupt_flag`.
pub record Rtc : Type 0 where
  pub prev : ℕ
  pub interrupt_flag : ℕ

-- `init_rtc`; `answer` is what register B holds.
unfoldable pub init_rtc : ℕ → Rtc → Pic → Rtc × Pic
init_rtc answer rtc pic =
    let io =
      outb (bit_or answer 0x40) rtc_data
        (outb status_b rtc_port (inb rtc_data (outb status_b rtc_port pic.io))) in
    (record { prev = answer; interrupt_flag = 0 }, enable_irq rtc_irq (record pic { io = io }))

-- `rtc_handler`
unfoldable pub rtc_handler : Rtc → Io → Rtc × Io
rtc_handler rtc io = (
  record rtc { interrupt_flag = 1 },
  sti (send_eoi rtc_irq (inb rtc_data (outb status_c rtc_port (cli io)))),
)

-- The switch of `set_freq_rtc`: the rate bits for a frequency.
unfoldable pub rate_of : ℤ → Option ℕ
rate_of (negsuc n) = none
rate_of (pos n) =
    if n == 2
    then some 0x0f
    else if n == 4
    then some 0x0e
    else if n == 8
    then some 0x0d
    else if n == 16
    then some 0x0c
    else if n == 32
    then some 0x0b
    else if n == 64
    then some 0x0a
    else if n == 128
    then some 0x09
    else if n == 256
    then some 0x08
    else if n == 512
    then some 0x07
    else if n == 1024
    then some 0x06
    else none

-- `set_freq_rtc`; `reg_a_temp` is the variable that is used before it is set.
unfoldable pub set_freq_rtc : ℕ → ℤ → Io → ℤ × Io
set_freq_rtc reg_a_temp frequency io = elim (rate_of frequency) [
  | none ↦ (minus_one, io)
  | some rate ↦ (
    pos 0,
    sti (
        outb (bit_or (bit_and reg_a_temp 0xf0) rate % 256) rtc_data
          (outb status_a rtc_port (cli io))),
  )
]

-- `open_rtc`
unfoldable pub open_rtc : ℕ → Io → ℤ × Io
unfolding set_freq_rtc
open_rtc reg_a_temp io = (pos 0, (set_freq_rtc reg_a_temp (pos 2) io).1)

-- `close_rtc`
abbrev pub close_rtc : ℤ
close_rtc = pos 0

-- The first test of `write_rtc`; `frequency & (frequency - 1)` is computed in its range only.
unfoldable pub bad_frequency : ℤ → Bool
bad_frequency (negsuc n) = true
bad_frequency (pos n) = ltb 1024 n || (ltb n 2 || not (bit_and n (n - 1) == 0))

-- `write_rtc` at a buffer that is not null and holds the 32-bit word `word`.
unfoldable pub write_rtc : ℕ → ℕ → ℤ → Io → ℤ × Io
unfolding bad_frequency
write_rtc reg_a_temp word nbytes io =
    let frequency = signed32 word in
    let set_to = set_freq_rtc reg_a_temp frequency (cli io) in
    if bad_frequency frequency
    then (minus_one, sti (cli io))
    else (if eqb_ℤ nbytes (pos 4)
        then (if eqb_ℤ set_to.0 minus_one then (minus_one, sti set_to.1) else (pos 0, sti set_to.1))
        else (minus_one, sti (cli io)))

-- The empty loop of `read_rtc`, while the flag is 0: for each of its turns the list holds whether
-- the clock interrupts in it; `none` is a wait that has not ended when the list has.
unfoldable pub wait_rtc : List Bool → Rtc → Io → Option (Rtc × Io)
unfolding rtc_handler
wait_rtc [] rtc io = if rtc.interrupt_flag == 0 then none else some (rtc, io)
wait_rtc (arrives ∷ turns) rtc io =
    let next = if arrives then rtc_handler rtc io else (rtc, io) in
    let rest = wait_rtc turns next.0 next.1 in
    if rtc.interrupt_flag == 0 then rest else some (rtc, io)

-- `read_rtc`
unfoldable pub read_rtc : ℕ → List Bool → Rtc → Io → Option (ℤ × Rtc × Io)
unfolding wait_rtc set_freq_rtc
read_rtc reg_a_temp turns rtc io =
    wait_rtc turns rtc (set_freq_rtc reg_a_temp (pos 512) (sti io)).1 >>= λ r.
    some (pos 0, record r.0 { interrupt_flag = 0 }, r.1)

-- `init_scheduler`. The first call has its two arguments in the other order: it writes 0x43 to port
-- 0x36.
unfoldable pub init_scheduler : Pic → Pic
init_scheduler pic = enable_irq 0 (record pic {
  io = outb (28409 / 2 ^ 8) 0x40 (outb (bit_and 28409 0xff) 0x40 (outb 0x43 0x36 pic.io));
})
