-- ===== src/Go/Scanner.antt =====
-- Of package bufio: a `Scanner` that yields the lines of a text.
pub mod RoundTrip
use go_virtualbox.Prelude.{
  ℕ, zero, suc, ◌^◌, String, code, Option, none, some, List, [], ◌∷◌, leb, nat_eq, if◌then◌else◌,
  ◌≡◌, refl,
}
use go_virtualbox.Go.Outcome.{Error, line_too_long}
use go_virtualbox.Go.Strings.{split}

-- a carriage return at the end of a line is dropped
unfoldable pub drop_cr : String → String
drop_cr String.[] = String.[]
drop_cr (String.◌∷◌ c String.[]) = if nat_eq (code c) 13 then String.[] else String.◌∷◌ c String.[]
drop_cr (String.◌∷◌ c (String.◌∷◌ d s)) = String.◌∷◌ c (drop_cr (String.◌∷◌ d s))

unfoldable pub bytes : String → ℕ
bytes String.[] = zero
bytes (String.◌∷◌ c s) = suc (bytes s)

abbrev pub Scanned : Type 0
Scanned = List String × Option Error

pub add_line : String → Scanned → Scanned
add_line line (lines, stopped) = (line ∷ lines, stopped)

-- What follows the last newline is a line when it is not empty. A line that fills the buffer of
-- 65536 bytes stops the scan.
pub scan_parts : List String → Scanned
unfolding drop_cr bytes add_line
scan_parts [] = ([], none)
scan_parts (String.[] ∷ []) = ([], none)
scan_parts (p ∷ ps) =
    let rest = scan_parts ps in
    if leb (2 ^ 16) (bytes p) then ([], some line_too_long) else add_line (drop_cr p) rest

unfoldable pub scan_lines : String → Scanned
unfolding scan_parts split
scan_lines s = scan_parts (split 10 s)

scan_lines_crlf : scan_lines "a\r\n\nb\n" ≡ ("a" ∷ "" ∷ "b" ∷ [], none)
unfolding scan_lines scan_parts split drop_cr bytes add_line
scan_lines_crlf = refl
