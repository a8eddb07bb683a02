-- ===== src/Command/Tests.antt =====
-- Two command lines, taken apart.
use my_linux_os.Common.{◌≡◌, [], ◌∷◌, some, arith}
use my_linux_os.Command.{parse_command}
use my_linux_os.Command.Words.{padded, parse_command-command_line, parse_command-feed}

-- "  cat a b"
parse_command-command_line_example :
    parse_command (0x20 ∷ 0x20 ∷ 0x63 ∷ 0x61 ∷ 0x74 ∷ 0x20 ∷ 0x61 ∷ 0x20 ∷ 0x62 ∷ 0 ∷ 7 ∷ [])
    ≡ some (padded 32 (0x63 ∷ 0x61 ∷ 0x74 ∷ []), padded 128 (0x61 ∷ 0x20 ∷ 0x62 ∷ []))
parse_command-command_line_example =
    parse_command-command_line 2 1 (0x63 ∷ 0x61 ∷ 0x74 ∷ []) (0x61 ∷ 0x20 ∷ 0x62 ∷ []) (7 ∷ [])
      (
        (omega arith, omega arith, omega arith),
        ((omega arith, omega arith, omega arith), ((omega arith, omega arith, omega arith), tt)),
      )
      (omega arith) (omega arith) (omega arith, (omega arith, (omega arith, tt))) (omega arith)
      (λ e. ground arith) (omega arith) (omega arith)

-- "ls", and a line feed
parse_command-feed_example :
    parse_command (0x6c ∷ 0x73 ∷ 0x0a ∷ 0 ∷ [])
    ≡ some (padded 32 (0x6c ∷ 0x73 ∷ []), padded 128 (0x6c ∷ 0x73 ∷ 0x0a ∷ []))
parse_command-feed_example =
    parse_command-feed (0x6c ∷ 0x73 ∷ []) [] []
      ((omega arith, omega arith, omega arith), ((omega arith, omega arith, omega arith), tt))
      (omega arith) (omega arith) tt (omega arith)
