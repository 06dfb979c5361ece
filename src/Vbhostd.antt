-- ===== src/Vbhostd.antt =====
-- cmd/vbhostd: the program that opens the addresses its guests ask for. `open` is that of the
-- platform's file. The object of a call is the list of what is printed.
pub mod Allowed
pub mod System
use go_virtualbox.Prelude.{
  String, Bool, true, false, Option, none, some, List, [], ◌∷◌, ◌++◌, map, ◌==◌, if◌then◌else◌,
  append,
}
use go_virtualbox.Go.Outcome.{Outcome, ok, err, panic, Failure, error_value}
use go_virtualbox.Go.Regexp.{Regex, Captures, group, alt, text, chr, all_of, find_at_start}
use go_virtualbox.Go.Strings.{split}
use go_virtualbox.Vbcmd.{Exec, World, Invocation, Reply, ◌>>=◌, ◌>>◌, pure, this, set_this}
use go_virtualbox.Machine.Kinds.{Machine}
use go_virtualbox.Machine.Registry.{list_machines}
use go_virtualbox.Guest.{GuestProperty}

-- panic(err)
unfoldable pub or_panic : {S A : Type 0} → Exec S A → Exec S A
or_panic m host w = go (m host w)
  where
    go : {S A : Type 0} → Outcome A × World S → Outcome A × World S
    go (err e, w) = (panic (error_value e), w)
    go (ok a, w) = (ok a, w)
    go (panic p, w) = (panic p, w)

-- the names of all machines
unfoldable pub all_names : {S : Type 0} → Exec S (List String)
unfolding or_panic list_machines
all_names = do machines ← or_panic list_machines; pure (map (λ m. m.name) machines)

-- the machines to wait for
unfoldable pub vms_of : {S : Type 0} → String → Exec S (List String)
unfolding all_names
vms_of vm = if vm == "all" then all_names else pure (vm ∷ [])

-- what package flag makes of the command line
pub record Flags : Type 0 where
  pub vm : String
  pub verbose : Bool
  pub help : Bool

abbrev pub default_flags : Flags
default_flags = record { vm = "all"; verbose = false; help = false }

-- what virtualbox.Debug writes to os.Stderr of a message
abbrev pub debug : Bool → String → String
debug verbose message = if verbose then append "\t  " (append message "\n") else ""

-- The machines that `main` waits for; with `-h` it prints the flags and exits.
unfoldable pub watched : {S : Type 0} → Flags → Exec S (Option (List String))
unfolding vms_of
watched flags = if flags.help then pure none else (do vms ← vms_of flags.vm; pure (some vms))

-- ^(http|https|mailto):
abbrev pub open_regexp : Regex
open_regexp =
    all_of (group 1 (alt (text "http") (alt (text "https") (text "mailto"))) ∷ chr b':' ∷ [])

unfoldable pub is_match_at_start : Option Captures → Bool
is_match_at_start none = false
is_match_at_start (some caps) = true

-- open(args...)
abbrev pub open_linux : List String → Invocation
open_linux args = record { program = "xdg_open"; argv = args }

abbrev pub open_darwin : List String → Invocation
open_darwin args = record { program = "open"; argv = args }

abbrev pub open_windows : List String → Invocation
open_windows args = record { program = "cmd"; argv = "/c" ∷ "start" ∷ args }

unfoldable pub open_command : String → List String → Invocation
open_command os args =
    if os == "windows"
    then open_windows args
    else if os == "darwin"
    then open_darwin args
    else open_linux args

-- the lines of fmt.Printf
pub data Line : Type 0 where
  opening unsupported reported unexpected : String → Line
  failed : Failure → Line
  exiting : Line

abbrev pub Loop : Type 0 → Type 0
Loop A = Exec (List Line) A

abbrev pub print : Line → Loop (Unit {0})
print line = do lines ← this; set_this (lines ++ line ∷ [])

-- cmd.Run() and what is printed of its error
unfoldable pub run_open : List String → Loop (Unit {0})
unfolding open_command
run_open args host w =
    let inv = open_command host.os args in
    report (host.reply w.log inv).failure host (record w { log = w.log ++ inv ∷ [] })
  where
    report : Option Failure → Loop (Unit {0})
    report none = pure tt
    report (some f) = print (failed f)

-- the case of `vbhostd/open`
unfoldable pub open_value : String → Loop (Unit {0})
unfolding is_match_at_start find_at_start run_open split
open_value value =
    print (opening value)
    >> (if is_match_at_start (find_at_start open_regexp value)
        then run_open (split 32 value)
        else print (unsupported value))

-- the switch over the names: does the loop go on?
unfoldable pub handle : GuestProperty → Loop Bool
unfolding open_value
handle prop =
    if prop.name == "vbhostd/open"
    then (open_value prop.value >> pure true)
    else if prop.name == "vbhostd/error"
    then (print (reported prop.value) >> pure false)
    else if prop.name == ""
    then (print (unexpected prop.value) >> pure false)
    else pure true

-- The loop over the properties that come; it is left at the first that says so, and waits for
-- more after the last.
unfoldable pub event_loop : List GuestProperty → Loop Bool
unfolding handle
event_loop [] = pure true
event_loop (prop ∷ props) = handle prop >>= λ more. (if more then event_loop props else pure false)
