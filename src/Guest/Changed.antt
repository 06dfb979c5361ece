-- ===== src/Guest/Changed.antt =====
-- guestprop.go: what VBoxManage prints about a change is read back.
use Prim.Native.String.append as Append
use package.text.Mathlib.TextLemmas.{cons-ne-nil, append_assoc}
use go_virtualbox.Prelude.{
  ℕ, String, true, false, none, some, List, Bool-cases, inl, inr, if◌then◌else◌, [], ◌∷◌, ◌++◌, ◌≡◌,
  refl, ◌∙◌, ap, append, eq-false, ◌==◌,
}
use go_virtualbox.Go.Outcome.{ok}
use go_virtualbox.Go.Regexp.{
  Captures, Continue, other_than, match_at, match_end, find_at_start, accept, capture, group, many,
  text, all_of, dot, end_text, Regex,
}
use go_virtualbox.Go.Regexp.Greedy.{match_many-all, match_many-stops, before-append, match_text}
use go_virtualbox.Go.Strings.{Lacks, append-one}
use go_virtualbox.Go.Strings.Trim.{
  trim_space, trim_left, trim_right, is_space, trim_right-append, trim_right-newline,
  trim_right-solid, append-right-ne-nil, Lacks-trim_right,
}
use go_virtualbox.Vbcmd.{
  Host, World, Invocation, Reply, manage, set_opts, run_out, run_out_with, error_of,
}
use go_virtualbox.Guest.Logged.{inner_wait, outer_wait}
use go_virtualbox.Guest.{re_wait, change_of, wait_in_guest, wait_guest_property}

-- a group up to a comma
group_stops :
    (g : ℕ) (v ys t : String) (caps out : Captures) (k : Continue)
    → t ≡ String.◌∷◌ "," ys
    → Lacks b',' v
    → k t ((g, v) ∷ caps) ≡ some out
    → match_at (group g (many (other_than b','))) (append v t) caps k ≡ some out
unfolding match_at
group_stops g v ys t caps out k e h found = rw e (
    match_many-stops _ v ys "," caps out h
      (rw (before-append v (String.◌∷◌ "," ys)) (rw e at found)))

abbrev flags_part : Regex
flags_part = all_of (text ", flags:" ∷ many dot ∷ end_text ∷ [])

flags_read :
    (flags : String) (caps : Captures)
    → Lacks 10 flags
    → match_at flags_part (append ", flags:" flags) caps accept ≡ some caps
unfolding match_at match_end
flags_read flags caps h =
    match_text ", flags:" flags caps _ ∙ match_many-all 10 _ flags caps caps h refl

abbrev value_part : Regex
value_part = all_of (
    text ", value: "
    ∷ group 2 (many (other_than b','))
    ∷ text ", flags:"
    ∷ many dot
    ∷ end_text
    ∷ [])

value_read :
    (value flags : String) (caps : Captures)
    → Lacks b',' value
    → Lacks 10 flags
    → match_at value_part (append ", value: " (append value (append ", flags:" flags))) caps accept
      ≡ some ((2, value) ∷ caps)
unfolding match_at
value_read value flags caps hv hf =
    match_text ", value: " (append value (append ", flags:" flags)) caps _
    ∙ group_stops 2 value _ _ caps _ (λ t c. match_at flags_part t c accept)
        (Append.cons "," " flags:" flags) hv (flags_read flags ((2, value) ∷ caps) hf)

-- the line that tells a change
abbrev pub change_line : String → String → String → String
change_line name value flags =
    append "Name: " (append name (append ", value: " (append value (append ", flags:" flags))))

change_line-read :
    (name value flags : String)
    → Lacks b',' name
    → Lacks b',' value
    → Lacks 10 flags
    → find_at_start re_wait (change_line name value flags) ≡ some ((2, value) ∷ (1, name) ∷ [])
unfolding find_at_start match_at
change_line-read name value flags hn hv hf =
    let rest = append value (append ", flags:" flags) in
    match_text "Name: " (append name (append ", value: " rest)) [] _
    ∙ group_stops 1 name _ _ [] _ (λ t c. match_at value_part t c accept)
        (Append.cons "," " value: " rest) hn (value_read value flags ((1, name) ∷ []) hv hf)

-- what `guestproperty wait` prints
abbrev pub change_shown : String → String → String → String
change_shown name value flags = append (change_line name value flags) "\n"

-- The text is trimmed to another, which is not empty.
record TrimsTo (t u : String) : Type 0 where
  pub trims : trim_right t ≡ u
  pub not_empty : (u == "") ≡ false

append-TrimsTo : (s t u : String) → TrimsTo t u → TrimsTo (append s t) (append s u)
append-TrimsTo s t u h = record {
  trims = trim_right-append s t (rw h.trims h.not_empty) ∙ ap (append s) h.trims;
  not_empty = append-right-ne-nil s u h.not_empty;
}

split_flags : (flags : String) → append ", flags:" flags ≡ append ", flags" (String.◌∷◌ ":" flags)
split_flags flags = append_assoc ", flags" ":" flags ∙ ap (append ", flags") (append-one ":" flags)

flags-TrimsTo :
    (flags : String) → TrimsTo (append ", flags:" flags) (append ", flags:" (trim_right flags))
unfolding is_space go_virtualbox.Go.Scan.is_blank
flags-TrimsTo flags =
    rw (split_flags flags, split_flags (trim_right flags))
      (append-TrimsTo ", flags" _ _ (record {
        trims = trim_right-solid ":" flags refl;
        not_empty = eq-false _ _ (cons-ne-nil ":" _);
      }))

trim-change_shown :
    (name value flags : String)
    → trim_space (change_shown name value flags) ≡ change_line name value (trim_right flags)
unfolding trim_space trim_left is_space go_virtualbox.Go.Scan.is_blank
trim-change_shown name value flags =
    let left : trim_left (change_shown name value flags) ≡ change_shown name value flags =
      rw Append.cons (rw Append.cons refl) in
    rw left (
      trim_right-newline (change_line name value flags)
      ∙ (append-TrimsTo "Name: " _ _ (
          append-TrimsTo name _ _ (
            append-TrimsTo ", value: " _ _
              (append-TrimsTo value _ _ (flags-TrimsTo flags))))).trims)

-- what `WaitGuestProperty` makes of it
change_shown-read :
    (name value flags : String)
    → Lacks b',' name
    → Lacks b',' value
    → Lacks 10 flags
    → change_of (find_at_start re_wait (trim_space (change_shown name value flags)))
      ≡ ok (name, value)
unfolding change_of capture
change_shown-read name value flags hn hv hf =
    rw (trim-change_shown name value flags) (
      rw (change_line-read name value (trim_right flags) hn hv (Lacks-trim_right 10 flags hf)) refl)

-- What ran before the command that prints the change: nothing more outside a guest, and in a guest a
-- wait of its own with sudo.
abbrev pub before_wait : Host → String → List Invocation → List Invocation
before_wait host prop log = if host.manage.guest then log ++ inner_wait host prop ∷ [] else log

abbrev pub reply_to_wait : {S : Type 0} → Host → String → String → World S → Reply
reply_to_wait host vm prop w = host.reply (before_wait host prop w.log) (outer_wait host vm prop)

abbrev pub waited : {S : Type 0} → Host → String → String → World S → World S
waited host vm prop w = record w {
  log = before_wait host prop w.log ++ outer_wait host vm prop ∷ [];
}

wait_in_guest-before_wait :
    {S : Type 0} (prop : String) (host : Host) (w : World S)
    → (host.manage.guest ≡ true → (host.reply w.log (inner_wait host prop)).failure ≡ none)
    → wait_in_guest prop host w ≡ (ok tt, record w { log = before_wait host prop w.log })
unfolding wait_in_guest manage set_opts run_out_with error_of go_virtualbox.Vbcmd.prepare
wait_in_guest-before_wait prop host w succeeds = elim (Bool-cases host.manage.guest) [
  | inl guest ↦ rw guest (rw (succeeds guest) refl)
  | inr outside ↦ rw outside refl
]

-- WaitGuestProperty runs `guestproperty wait` with the machine's name and reads back the name and the
-- value of the change that it prints. This holds when that command succeeds, neither of the two has a
-- comma, and the flags have no newline. Outside a guest it is the only command. In a guest a wait with
-- sudo and without the machine's name runs before it, which must succeed too; what that one prints
-- has no effect on the result.
pub wait_guest_property-shown :
    {S : Type 0} (vm prop name value flags : String) (host : Host) (w : World S)
    → (host.manage.guest ≡ true → (host.reply w.log (inner_wait host prop)).failure ≡ none)
    → (reply_to_wait host vm prop w).failure ≡ none
    → (reply_to_wait host vm prop w).stdout ≡ change_shown name value flags
    → Lacks b',' name
    → Lacks b',' value
    → Lacks 10 flags
    → wait_guest_property vm prop host w ≡ (ok (name, value), waited host vm prop w)
unfolding wait_guest_property run_out error_of
wait_guest_property-shown vm prop name value flags host w succeeds works prints hn hv hf =
    rw (wait_in_guest-before_wait prop host w succeeds)
      (rw (works, prints) (rw (change_shown-read name value flags hn hv hf) refl))
