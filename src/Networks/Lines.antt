-- ===== src/Networks/Lines.antt =====
-- hostonlynet.go and natnet.go: the loop over the lines of a list, which is the same for both. A line
-- `<key>: <value>` changes the entry that is being read, and an empty line puts it into the map.
pub mod Shown
pub mod Blocks
use go_virtualbox.Prelude.{
  ℕ, String, Bool, false, ◌||◌, Option, none, some, List, [], ◌∷◌, nat_eq, Dict, insert, ◌==◌,
  if◌then◌else◌,
}
use go_virtualbox.Go.Outcome.{Outcome, ok, err, panic, Error, ◌>>=◌}
use go_virtualbox.Go.Regexp.{
  Regex, Captures, many, group, plus, chr, dot, all_of, find_submatch, capture,
}
use go_virtualbox.Go.Scanner.{scan_lines}

abbrev pub string_yes : String
string_yes = "Yes"

-- \s
abbrev pub blank : ℕ → Bool
blank c = nat_eq c 32 || (nat_eq c 9 || (nat_eq c 10 || (nat_eq c 12 || nat_eq c 13)))

-- (.+):\s+(.*)
abbrev pub re_colon_line : Regex
re_colon_line = all_of (group 1 (plus dot) ∷ chr b':' ∷ plus blank ∷ group 2 (many dot) ∷ [])

unfoldable pub entry_of : Option Captures → Option (String × String)
unfolding capture
entry_of none = none
entry_of (some caps) = some (capture 1 caps, capture 2 caps)

-- the key and the value of a line
unfoldable pub colon_entry : String → Option (String × String)
unfolding entry_of find_submatch
colon_entry line = entry_of (find_submatch re_colon_line line)

-- What is read: the entry with no line, the key of an entry, and what a line does to an entry.
pub record Reader (V : Type 0) : Type 0 where
  pub fresh : V
  pub key : V → String
  pub assign : String → String → V → Outcome V

module _ {V : Type 0} (reader : Reader V) where
  -- a line that is not empty
  unfoldable pub assign_entry : Option (String × String) → V → Outcome V
  assign_entry none v = ok v
  assign_entry (some (key, value)) v = reader.assign key value v

  unfoldable pub line_step : String → Dict V × V → Outcome (Dict V × V)
  unfolding assign_entry colon_entry insert
  line_step line (m, v) =
      if line == ""
      then ok (insert (reader.key v) v m, reader.fresh)
      else (assign_entry (colon_entry line) v >>= λ v'. ok (m, v'))

  unfoldable pub line_loop : List String → Dict V × V → Outcome (Dict V × V)
  unfolding line_step
  line_loop [] state = ok state
  line_loop (line ∷ lines) state = line_step line state >>= line_loop lines

  -- the map after the loop, unless the scanner stopped with an error
  unfoldable pub finish : Option Error → Dict V × V → Outcome (Dict V)
  finish none (m, v) = ok m
  finish (some e) (m, v) = err e

  unfoldable pub read_entries : String → Outcome (Dict V)
  unfolding line_loop finish scan_lines
  read_entries out = line_loop (scan_lines out).0 ([], reader.fresh) >>= finish (scan_lines out).1
