-- ===== src/Go/Scanner/RoundTrip.antt =====
-- Of package bufio: a `Scanner` reads back the lines of a text.

use go_virtualbox.Prelude.{
  ◌^◌, String, Bool, true, false, not, ◌&&◌, none, List, [], ◌∷◌, ◌≡◌, refl, sym, ap, ◌∙◌, append,
  arith, leb, ◌==◌, eq_iff,
}
use go_virtualbox.Go.Strings.{Lacks-lacks, lacks, split, split-append, split-cons}
use go_virtualbox.Go.Scanner.{drop_cr, bytes, add_line, scan_parts, scan_lines}

-- each line with its newline
abbrev pub unlines : List String → String
unlines [] = ""
unlines (line ∷ lines) = append line (String.◌∷◌ "\n" (unlines lines))

-- a line with no newline in it and no carriage return at its end, which fits into the buffer
unfoldable pub is_line : String → Bool
unfolding lacks drop_cr bytes
is_line line = lacks 10 line && ((drop_cr line == line) && not (leb (2 ^ 16) (bytes line)))

unfoldable pub are_lines : List String → Bool
unfolding is_line
are_lines [] = true
are_lines (line ∷ lines) = let rest = are_lines lines in is_line line && rest

record IsLine (line : String) : Type 0 where
  one : lacks 10 line ≡ true
  no_cr : drop_cr line ≡ line
  fits : leb (2 ^ 16) (bytes line) ≡ false

is_line-IsLine : (line : String) → is_line line ≡ true → IsLine line
unfolding is_line
is_line-IsLine line h = record {
  one = ground arith;
  no_cr = (eq_iff (drop_cr line) line).0 (ground arith);
  fits = ground arith;
}

-- A part that is not the last one is a line.
scan_part :
    (line next : String) (rest : List String)
    → IsLine line
    → scan_parts (line ∷ next ∷ rest) ≡ add_line line (scan_parts (next ∷ rest))
unfolding scan_parts
scan_part String.[] next rest h = refl
scan_part (String.◌∷◌ c line) next rest h = rw (h.fits, h.no_cr) refl

-- The scanner yields just the lines of a text whose lines end in a newline.
pub scan_lines-unlines :
    (lines : List String) → are_lines lines ≡ true → scan_lines (unlines lines) ≡ (lines, none)
unfolding scan_lines scan_parts split are_lines add_line
scan_lines-unlines [] h = refl
scan_lines-unlines (line ∷ lines) h =
    let fine = is_line-IsLine line (ground arith) in
    let (next, rest, parts) = split-cons 10 (unlines lines) in
    ap scan_parts (split-append 10 line (unlines lines) "\n" refl (Lacks-lacks 10 line fine.one))
    ∙ ap (λ l. scan_parts (line ∷ l)) parts
    ∙ scan_part line next rest fine
    ∙ ap (λ l. add_line line (scan_parts l)) (sym parts)
    ∙ ap (add_line line) (scan_lines-unlines lines (ground arith))
