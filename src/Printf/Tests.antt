-- ===== src/Printf/Tests.antt =====
-- A format with a conversion of each kind, on an empty screen.
use my_linux_os.Common.{ℕ, ◌≡◌, true, List, [], ◌∷◌, replicate, some, arith}
use my_linux_os.Common.Int.{pos, negsuc}
use my_linux_os.Screen.{Screen}
use my_linux_os.Printf.{word, string, printf}
use my_linux_os.Printf.Pieces.{Piece, letter, percent, hex8, signed, str, put_all}
use my_linux_os.Printf.Shown.{Shown, printf_lem}

abbrev screen : Screen
screen = record {
  mem = λ a. 0;
  screen_x = pos 0;
  screen_y = pos 0;
  curr_active_terminal = pos 0;
  io = record { log = []; interrupts = true };
}

-- "a%#x%d%s%%", for 30, -5 and "b"
abbrev pieces : List Piece
pieces = letter 0x61 ∷ hex8 30 ∷ signed (negsuc 4) ∷ str (0x62 ∷ []) [] ∷ percent ∷ []

printf_example :
    (t : List ℕ) × Shown pieces t
    × (printf
          (replicate 64 7)
          (0x61 ∷ 0x25 ∷ 0x23 ∷ 0x78 ∷ 0x25 ∷ 0x64 ∷ 0x25 ∷ 0x73 ∷ 0x25 ∷ 0x25 ∷ 0 ∷ [])
          (word 30 ∷ word 4294967291 ∷ string (0x62 ∷ 0 ∷ []) ∷ [])
          screen
        ≡ some (10, put_all t screen))
printf_example =
    printf_lem (replicate 64 7) pieces [] screen (omega arith)
      ((omega arith, omega arith), (omega arith, (omega arith, ((omega arith, tt), (tt, tt)))))
