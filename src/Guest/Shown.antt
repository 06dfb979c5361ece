-- ===== src/Guest/Shown.antt =====
-- guestprop.go: what VBoxManage prints about a property is read back.
use Prim.Native.String.append as Append
use package.text.Mathlib.TextLemmas.{cons-ne-nil}
use go_virtualbox.Prelude.{
  ℕ, String, Char, code, true, false, nat_eq, Option, none, some, [], ◌∷◌, ◌++◌, ◌≡◌, ◌≢◌, refl,
  ◌∙◌, ap, append, arith, ◌==◌, if◌then◌else◌, Bool-cases, inl, inr,
}
use go_virtualbox.Go.Outcome.{ok, err, no_guest_value}
use go_virtualbox.Go.Regexp.{
  Captures, Continue, other_than, match_many, match_at, match_eol, find_in_lines, accept, capture,
  or_else, group, many, text, all_of, end_line, Regex,
}
use go_virtualbox.Go.Regexp.Greedy.{before-nil, match_text}
use go_virtualbox.Go.Strings.{Lacks, Lacks-append, lacks, Lacks-lacks}
use go_virtualbox.Go.Strings.Trim.{
  trim_space, trim_left, trim_right, is_space, trim_right-append, trim_right-newline,
}
use go_virtualbox.Vbcmd.{
  Host, World, Invocation, Reply, prepare, set_opts, sudo, error_of, run_out_err_with, run_out_err,
  manage,
}
use go_virtualbox.Guest.{re_get, value_of, get_reply, get_guest_property}

module _ (sep : ℕ) (k : Continue)
    (fails : (c : Char) (s : String) (caps : Captures)
      → code c ≢ 10
      → k (String.◌∷◌ c s) caps ≡ none) where
  -- on one line, a repetition up to its end takes all or fails
  match_many-line :
      (s : String) (caps : Captures)
      → Lacks 10 s
      → match_many (other_than sep) s caps k ≡ (if lacks sep s then k "" caps else none)
  unfolding match_many lacks
  match_many-line String.[] caps h = refl
  match_many-line (String.◌∷◌ c s) caps (h, hs) =
      rw (match_many-line s caps hs, fails c s caps h) (ground arith)

-- there is no further line to match at
later_lines : (r : Regex) (s : String) → Lacks 10 s → s ≢ "" → find_in_lines r false s ≡ none
unfolding find_in_lines
later_lines r String.[] h n = refl
later_lines r (String.◌∷◌ c String.[]) (h, hs) n = ground arith
later_lines r (String.◌∷◌ c (String.◌∷◌ d s)) (h, hs) n =
    let rest = later_lines r (String.◌∷◌ d s) hs (cons-ne-nil d s) in ground (arith, rest)

abbrev value_part : Regex
value_part = all_of (group 1 (many (other_than b',')) ∷ end_line ∷ [])

-- the line `Value: <value>`
abbrev pub value_line : String → String
value_line value = append "Value: " value

value_line_text :
    (value : String)
    → match_at re_get (value_line value) [] accept ≡ match_at value_part value [] accept
unfolding match_at
value_line_text value = match_text "Value: " value [] (λ t caps. match_at value_part t caps accept)

value_part_read :
    (value : String)
    → Lacks 10 value
    → match_at value_part value [] accept
      ≡ (if lacks b',' value then some ((1, value) ∷ []) else none)
unfolding match_at match_eol
value_part_read value h =
    match_many-line b',' _ (λ c s caps n. ground arith) value [] h ∙ rw (before-nil value) refl

-- what `guestproperty get` prints
abbrev pub value_shown : String → String
value_shown value = append (value_line value) "\n"

-- a value on one line, that is not empty and has no white space at its end
pub record IsPlain (value : String) : Type 0 where
  pub one_line : Lacks 10 value
  pub not_empty : (value == "") ≡ false
  pub trimmed : trim_right value ≡ value

pub trim-value_shown :
    (value : String)
    → (value == "") ≡ false
    → trim_right value ≡ value
    → trim_space (value_shown value) ≡ value_line value
unfolding trim_space trim_left is_space go_virtualbox.Go.Scan.is_blank
trim-value_shown value not_empty trimmed =
    let left : trim_left (value_shown value) ≡ value_shown value =
      rw Append.cons (rw Append.cons refl) in
    rw left (
      trim_right-newline (value_line value)
      ∙ trim_right-append "Value: " value (rw trimmed not_empty)
      ∙ ap value_line trimmed)

find_in_lines-one :
    (r : Regex) (c : Char) (s : String)
    → Lacks 10 (String.◌∷◌ c s)
    → s ≢ ""
    → find_in_lines r true (String.◌∷◌ c s) ≡ match_at r (String.◌∷◌ c s) [] accept
unfolding find_in_lines
find_in_lines-one r c s (h, hs) n =
    let none_later = later_lines r s hs n in
    let other : nat_eq (code c) 10 ≡ false = ground arith in
    rw other (rw none_later (or_else-none (match_at r (String.◌∷◌ c s) [] accept)))
  where
    or_else-none : (o : Option Captures) → or_else o none ≡ o
    or_else-none none = refl
    or_else-none (some caps) = refl

-- what `GetGuestProperty` makes of it
value_shown-read :
    (prop value : String)
    → IsPlain value
    → value_of prop
        (trim_space (value_shown value))
        (find_in_lines re_get true (trim_space (value_shown value)))
      ≡ (if lacks b',' value then ok value else err (no_guest_value prop (value_line value)))
unfolding value_of capture lacks
value_shown-read prop value plain =
    let one_line = Lacks-append 10 "Value: " value (Lacks-lacks 10 "Value: " refl) plain.one_line in
    let found : find_in_lines re_get true (value_line value)
        ≡ match_at re_get (value_line value) [] accept =
      rw Append.cons (
        find_in_lines-one re_get "V" (append "alue: " value) (rw Append.cons at one_line)
          (rw Append.cons (cons-ne-nil _ _))) in
    rw (trim-value_shown value plain.not_empty plain.trimmed)
      (rw (found ∙ value_line_text value ∙ value_part_read value plain.one_line) (ground arith))

-- the command that reads a property, in a guest and outside
abbrev pub get_invocation : Host → String → String → Invocation
get_invocation host vm prop =
    if host.manage.guest
    then prepare host.os (set_opts host.manage (sudo true ∷ []))
        ("guestproperty" ∷ "get" ∷ prop ∷ [])
    else prepare host.os host.manage ("guestproperty" ∷ "get" ∷ vm ∷ prop ∷ [])

abbrev answer : {S : Type 0} → Host → World S → Invocation → Reply
answer host w inv = host.reply w.log inv

abbrev after : {S : Type 0} → World S → Invocation → World S
after w inv = record w { log = w.log ++ inv ∷ [] }

get_reply-answer :
    {S : Type 0} (vm prop : String) (host : Host) (w : World S)
    → let inv = get_invocation host vm prop in
      let reply = answer host w inv in
      get_reply vm prop host w
      ≡ (ok (reply.stdout, reply.stderr, error_of reply.failure), after w inv)
unfolding get_reply manage run_out_err_with run_out_err
get_reply-answer vm prop host w = elim (Bool-cases host.manage.guest) [
  | inl guest ↦ rw guest refl
  | inr outside ↦ rw outside refl
]

-- When its command succeeds, GetGuestProperty reads back a value that is printed on one line behind
-- `Value: `, not empty and with no white space at its end: it returns the value when it has no comma,
-- and an error when it has one. It runs one command, in a guest the one without the machine's name.
pub get_guest_property-shown :
    {S : Type 0} (vm prop value : String) (host : Host) (w : World S)
    → IsPlain value
    → (answer host w (get_invocation host vm prop)).failure ≡ none
    → (answer host w (get_invocation host vm prop)).stdout ≡ value_shown value
    → get_guest_property vm prop host w ≡ (
      (if lacks b',' value then ok value else err (no_guest_value prop (value_line value))),
      after w (get_invocation host vm prop),
    )
unfolding get_guest_property error_of
get_guest_property-shown vm prop value host w plain works prints =
    rw (get_reply-answer vm prop host w)
      (rw (works, prints) (rw (value_shown-read prop value plain) refl))
