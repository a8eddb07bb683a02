-- ===== src/Rtc/Tests.antt =====
-- The clock on concrete words and waits.
use my_linux_os.Common.{
  ℕ, ◌-◌, ◌*◌, ◌%◌, ◌^◌, ◌≡◌, refl, [], ◌∷◌, ◌++◌, replicate, some, none, true, false, arith,
}
use my_linux_os.Common.Int.{pos}
use my_linux_os.Io.{Io, out, sti}
use my_linux_os.Rtc.{
  Rtc, rtc_handler, set_freq_rtc, rate_of, write_rtc, read_rtc, rtc_data, status_a,
}
use my_linux_os.Rtc.Frequency.{write_rtc_accepts, read_rtc_waits}

abbrev quiet : Io
quiet = record { log = []; interrupts = false }

abbrev idle : Rtc
idle = record { prev = 0; interrupt_flag = 0 }

abbrev rung : Rtc
rung = record { prev = 0; interrupt_flag = 1 }

write_rtc_test :
    write_rtc 0 64 (pos 4) quiet
    ≡ (pos 0, record { log = out 0x0a 0x71 ∷ out 0x8a 0x70 ∷ []; interrupts = true })
unfolding write_rtc set_freq_rtc rate_of
write_rtc_test = refl

write_rtc_accepts_example :
    (v : ℕ) × (write_rtc 0 64 (pos 4) quiet
      ≡ (pos 0, record { log = out v rtc_data ∷ out status_a 0x70 ∷ []; interrupts = true }))
    × (64 * 2 ^ (v % 16 - 1) ≡ 32768)
write_rtc_accepts_example =
    write_rtc_accepts 0 64 quiet (omega arith) (6, omega arith, omega arith, refl)

read_rtc_waits_example :
    (read_rtc 0 (replicate 2 false ++ true ∷ []) idle quiet
      ≡ some (
        pos 0,
        record (rtc_handler idle (set_freq_rtc 0 (pos 512) (sti quiet)).1).0 { interrupt_flag = 0 },
        (rtc_handler idle (set_freq_rtc 0 (pos 512) (sti quiet)).1).1,
      ))
    × (read_rtc 0 (replicate 2 false) idle quiet ≡ none)
read_rtc_waits_example = read_rtc_waits 0 2 [] idle quiet refl
