-- ===== src/Guest.antt =====
-- guestprop.go: the properties that the host and a guest share. Each function asks whether it runs in
-- a guest, where the command needs sudo and no name of a machine.
pub mod Shown
pub mod Changed
pub mod Logged
pub mod Waiter
use go_virtualbox.Prelude.{ℕ, String, Char, true, Option, none, some, List, [], ◌∷◌, if◌then◌else◌}
use go_virtualbox.Go.Outcome.{Outcome, ok, err, Error, no_guest_value, no_guest_change}
use go_virtualbox.Go.Regexp.{
  Regex, Captures, many, group, all_of, text, dot, other_than, end_line, end_text, find_in_lines,
  find_at_start, capture,
}
use go_virtualbox.Go.Strings.Trim.{trim_space}
use go_virtualbox.Vbcmd.{
  Exec, Command, ◌>>=◌, ◌>>◌, lift, pure, check, manage, set_opts, sudo, run, run_with, run_out,
  run_out_with, run_out_err, run_out_err_with,
}

pub record GuestProperty : Type 0 where
  pub name : String
  pub value : String

-- ^Value: ([^,]*)$, with the flag m
abbrev pub re_get : Regex
re_get = all_of (text "Value: " ∷ group 1 (many (other_than b',')) ∷ end_line ∷ [])

-- ^Name: ([^,]*), value: ([^,]*), flags:.*$
abbrev pub re_wait : Regex
re_wait = all_of (
    text "Name: "
    ∷ group 1 (many (other_than b','))
    ∷ text ", value: "
    ∷ group 2 (many (other_than b','))
    ∷ text ", flags:"
    ∷ many dot
    ∷ end_text
    ∷ [])

-- Manage().setOpts(sudo(true))
abbrev pub manage_sudo : {S : Type 0} → Exec S Command
manage_sudo = do cmd ← manage; pure (set_opts cmd (sudo true ∷ []))

-- if Manage().isGuest() { inside } else { outside }
abbrev pub by_place : {S A : Type 0} → Exec S A → Exec S A → Exec S A
by_place inside outside = do cmd ← manage; if cmd.guest then inside else outside

unfoldable pub set_guest_property : {S : Type 0} → String → String → String → Exec S (Unit {0})
unfolding manage set_opts run run_with
set_guest_property vm prop val =
    by_place (do cmd ← manage_sudo; run_with cmd ("guestproperty" ∷ "set" ∷ prop ∷ val ∷ []))
      (run ("guestproperty" ∷ "set" ∷ vm ∷ prop ∷ val ∷ []))

unfoldable pub delete_guest_property : {S : Type 0} → String → String → Exec S (Unit {0})
unfolding manage set_opts run run_with
delete_guest_property vm prop =
    by_place (do cmd ← manage_sudo; run_with cmd ("guestproperty" ∷ "delete" ∷ prop ∷ []))
      (run ("guestproperty" ∷ "delete" ∷ vm ∷ prop ∷ []))

-- the value in what was printed
unfoldable pub value_of : String → String → Option Captures → Outcome String
unfolding capture
value_of prop out none = err (no_guest_value prop out)
value_of prop out (some caps) = ok (capture 1 caps)

-- the command that reads the property
unfoldable pub get_reply : {S : Type 0} → String → String → Exec S (String × String × Option Error)
unfolding manage set_opts run_out_err run_out_err_with
get_reply vm prop =
    by_place (do cmd ← manage_sudo; run_out_err_with cmd ("guestproperty" ∷ "get" ∷ prop ∷ []))
      (run_out_err ("guestproperty" ∷ "get" ∷ vm ∷ prop ∷ []))

unfoldable pub get_guest_property : {S : Type 0} → String → String → Exec S String
unfolding get_reply trim_space find_in_lines value_of
get_guest_property vm prop = do
  (out, stderr, e) ← get_reply vm prop
  printed ← check e out
  lift (value_of prop (trim_space printed) (find_in_lines re_get true (trim_space printed)))

-- the name and the value in what was printed
unfoldable pub change_of : Option Captures → Outcome (String × String)
unfolding capture
change_of none = err no_guest_change
change_of (some caps) = ok (capture 1 caps, capture 2 caps)

-- the wait that a guest has in front
unfoldable pub wait_in_guest : {S : Type 0} → String → Exec S (Unit {0})
unfolding manage set_opts run_out_with
wait_in_guest prop =
    by_place
      (do
        cmd ← manage_sudo
        (ignored, e) ← run_out_with cmd ("guestproperty" ∷ "wait" ∷ prop ∷ [])
        check e tt)
      (pure tt)

-- In a guest the command of the host runs too, after that of the guest.
unfoldable pub wait_guest_property : {S : Type 0} → String → String → Exec S (String × String)
unfolding wait_in_guest run_out trim_space find_at_start change_of
wait_guest_property vm prop = do
  wait_in_guest prop
  out ← run_out ("guestproperty" ∷ "wait" ∷ vm ∷ prop ∷ [])
  lift (change_of (find_at_start re_wait (trim_space out)))
