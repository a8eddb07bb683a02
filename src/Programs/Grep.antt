-- ===== src/Programs/Grep.antt =====
-- myLinuxOS/syscalls/ece391grep.c: the program that searches the files of the directory for a text.
pub mod Matches
use my_linux_os.Common.{
  ℕ, zero, suc, ◌+◌, ◌-◌, List, ◌++◌, Option, none, some, Bool, true, false, ◌==◌, ◌&&◌, not, leb,
  if◌then◌else◌, ◌>>=◌, get_elem?, set, take, drop, overwrite,
}
use my_linux_os.Common.Int.{ℤ, pos, negsuc, minus_one, eqb_ℤ, signed8}
use my_linux_os.Support.{ece391_strlen, ece391_strncmp, ece391_strcpy}
use my_linux_os.Programs.{System, read_into, ece391_fdputs}
use my_linux_os.Programs.Text.{c_string}
use my_linux_os.Programs.Buffer.{put_at}

-- The scan for the end of a line, at most `n` rounds from `line_end` on.
unfoldable pub find_end : ℕ → ℕ → List ℕ → Option ℕ
find_end zero line_end data_of = some line_end
find_end (suc n) line_end data_of =
    let rest = find_end n (line_end + 1) data_of in
    get_elem? data_of line_end >>= λ c. if c == 0x0a then some line_end else rest

-- The loop over `check`, `n` rounds from `check` on: is the text found in the line? `s` is a `char*`,
-- so its first character is compared as a signed number with a byte.
unfoldable pub matches : ℕ → ℕ → (s : List ℕ) → (s_len : ℕ) → List ℕ → Option Bool
matches zero check s s_len data_of = some false
matches (suc n) check s s_len data_of =
    let rest = matches n (check + 1) s s_len data_of in
    get_elem? s 0 >>= λ first. get_elem? data_of check >>= λ c.
    if eqb_ℤ (signed8 first) (pos c)
    then (ece391_strncmp (drop check data_of) s s_len >>= λ z.
        if eqb_ℤ z (pos 0) then some true else rest)
    else rest

module _ {S : Type 0} (sys : System S) where
  abbrev puts1 : List ℕ → S → Option S
  puts1 text s = ece391_fdputs sys (pos 1) text s

  -- The line that has been found, behind the name of its file.
  unfoldable pub show_line : (fname line_text : List ℕ) → S → Option S
  show_line fname line_text s =
      puts1 fname s >>= puts1 (c_string ":") >>= puts1 line_text >>= puts1 (c_string "\n")

  -- The inner loop, at most `fuel` rounds: the buffer and `last` behind it. The copy goes to lower
  -- addresses, so it reads what stood there before.
  unfoldable pub search_lines :
      (fuel : ℕ)
      → (text : List ℕ) → (s_len : ℕ) → (fname : List ℕ) → (cnt last line_start : ℕ) → List ℕ
      → S
      → Option (List ℕ × ℕ × S)
  unfolding find_end matches show_line
  search_lines zero text s_len fname cnt last line_start data_of s = none
  search_lines (suc fuel) text s_len fname cnt last line_start data_of s =
      find_end (last - line_start) line_start data_of >>= λ line_end.
      get_elem? data_of line_end >>= λ c.
      let ended = set data_of line_end 0 in
      if not (c == 0x0a) && (not (cnt == 0) && not (line_start == 0))
      then (ece391_strcpy ended (drop line_start ended) >>= λ moved.
          some (moved, last - line_start, s))
      else (matches (line_end - line_start) line_start text s_len ended >>= λ found.
          (if found then show_line fname (drop line_start ended) s else some s) >>= λ s'.
          if leb last (line_end + 1)
          then some (ended, 0, s')
          else search_lines fuel text s_len fname cnt last (line_end + 1) ended s')

  -- The outer loop, at most `fuel` rounds; the inner one has `lines` of them. A read gives -1 or a
  -- count.
  unfoldable pub search_file :
      (fuel lines : ℕ)
      → (text : List ℕ) → (s_len : ℕ) → (fname : List ℕ) → ℤ
      → (last : ℕ) → List ℕ
      → S
      → Option (ℤ × S)
  unfolding search_lines
  search_file zero lines text s_len fname fd last data_of s = none
  search_file (suc fuel) lines text s_len fname fd last data_of s =
      sys.ece391_read fd (pos (1024 - last)) s >>= λ r. elim r.0 [
        | negsuc n ↦
            if n == 0
            then (puts1 (c_string "file read failed\n") r.2 >>= λ t. some (minus_one, t))
            else none
        | pos cnt ↦
            search_lines lines text s_len fname cnt (last + cnt) 0
              (take last data_of ++ overwrite r.1 (drop last data_of)) r.2
            >>= λ q.
                if cnt == 0
                then (sys.ece391_close fd q.2 >>= λ c.
                    if eqb_ℤ c.0 minus_one
                    then (puts1 (c_string "file close failed\n") c.1 >>= λ t. some (minus_one, t))
                    else some (pos 0, c.1))
                else search_file fuel lines text s_len fname fd q.1 q.0 q.2
      ]

  -- `do_one_file`; `data_of` is its buffer of 1025 bytes.
  unfoldable pub do_one_file : (fuel lines : ℕ) → (s fname : List ℕ) → List ℕ → S → Option (ℤ × S)
  unfolding search_file
  do_one_file fuel lines text fname data_of s = ece391_strlen text >>= λ s_len.
      sys.ece391_open fname s >>= λ f.
      if eqb_ℤ f.0 minus_one
      then (puts1 (c_string "file open failed\n") f.1 >>= λ t. some (minus_one, t))
      else search_file fuel lines text s_len fname f.0 0 data_of f.1

  -- The loop of `main`, at most `files` rounds; `data_of` is what is in the buffer of `do_one_file`
  -- when so many rounds are left.
  unfoldable pub search_directory :
      (files fuel lines : ℕ)
      → ℤ
      → (search buf : List ℕ) → (data_of : ℕ → List ℕ) → S
      → Option (ℕ × S)
  unfolding do_one_file
  search_directory zero fuel lines fd search buf data_of s = none
  search_directory (suc files) fuel lines fd search buf data_of s =
      read_into sys fd buf (pos 32) s >>= λ r.
      if eqb_ℤ r.0 (pos 0)
      then some (0, r.2)
      else if eqb_ℤ r.0 minus_one
      then (puts1 (c_string "directory entry read failed\n") r.2 >>= λ t. some (3, t))
      else (get_elem? r.1 0 >>= λ first.
          if first == 0x2e
          then search_directory files fuel lines fd search r.1 data_of r.2
          else (put_at r.1 r.0 0 >>= λ fname.
              do_one_file fuel lines search fname (data_of files) r.2 >>= λ d.
              if eqb_ℤ d.0 (pos 0)
              then search_directory files fuel lines fd search fname data_of d.1
              else some (3, d.1)))

  -- `main`; `buf` and `search` are its buffers of 33 and 1024 bytes.
  unfoldable pub grep :
      (files fuel lines : ℕ) → (buf search : List ℕ) → (data_of : ℕ → List ℕ) → S → Option (ℕ × S)
  unfolding search_directory
  grep files fuel lines buf search data_of s = sys.ece391_getargs (pos 1024) s >>= λ a.
      if eqb_ℤ a.0 (pos 0)
      then (sys.ece391_open (c_string ".") a.2 >>= λ f.
          if eqb_ℤ f.0 minus_one
          then (puts1 (c_string "directory open failed\n") f.1 >>= λ t. some (2, t))
          else search_directory files fuel lines f.0 (overwrite a.1 search) buf data_of f.1)
      else (puts1 (c_string "could not read argument\n") a.2 >>= λ t. some (3, t))
