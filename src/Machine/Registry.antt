-- ===== src/Machine/Registry.antt =====
-- machine.go: the functions on all machines; extra.go and the clone of a disk.
pub mod Create
pub mod Listing
use go_virtualbox.Prelude.{
  ℕ, String, Bool, true, false, not, ◌||◌, Option, none, some, List, [], ◌∷◌, ◌++◌, ◌==◌,
  if◌then◌else◌,
}
use go_virtualbox.Go.Outcome.{
  Outcome, ok, err, panic, Error, machine_exist, machine_not_exist, bad_argument,
}
use go_virtualbox.Go.Regexp.{find_submatch, capture, Captures}
use go_virtualbox.Go.Scanner.{scan_lines}
use go_virtualbox.Vbcmd.{Exec, World, ◌>>=◌, ◌>>◌, Host, lift, pure, fail, run, run_out}
use go_virtualbox.Machine.Kinds.{Machine}
use go_virtualbox.Machine.Info.{re_vm_name_uuid, scanned_all}
use go_virtualbox.Machine.Lifecycle.{get_machine}

-- == ErrMachineNotExist
unfoldable pub is_machine_not_exist : Error → Bool
is_machine_not_exist machine_not_exist = true
is_machine_not_exist e = false

-- Sometimes a VM is listed but not available: no machine, and no error.
abbrev pub if_available : {S : Type 0} → Exec S Machine → Exec S (List Machine)
if_available m host w = available (m host w)
  where
    available : {S : Type 0} → Outcome Machine × World S → Outcome (List Machine) × World S
    available (ok a, v) = (ok (a ∷ []), v)
    available (err e, v) = (if is_machine_not_exist e then ok [] else err e, v)
    available (panic p, v) = (panic p, v)

-- what the loop adds for the groups of a line
unfoldable pub listed : {S : Type 0} → Option Captures → Exec S (List Machine)
unfolding capture get_machine
listed none = pure []
listed (some caps) = if_available (get_machine (capture 1 caps))

unfoldable pub list_loop : {S : Type 0} → List String → List Machine → Exec S (List Machine)
unfolding listed find_submatch
list_loop [] ms = pure ms
list_loop (line ∷ lines) ms = do
  found ← listed (find_submatch re_vm_name_uuid line)
  list_loop lines (ms ++ found)

unfoldable pub list_machines : {S : Type 0} → Exec S (List Machine)
unfolding run_out scan_lines list_loop scanned_all
list_machines = do
  out ← run_out ("list" ∷ "vms" ∷ [])
  let (lines, stopped) = scan_lines out
  ms ← list_loop lines []
  lift (scanned_all stopped ms)

-- the loop over the machines: is one called like that?
unfoldable pub has_machine : String → List Machine → Bool
has_machine name [] = false
has_machine name (m ∷ ms) = m.name == name || has_machine name ms

unfoldable pub create_args : String → String → String → List String
create_args uuid name basefolder =
    ("createvm" ∷ "--uuid" ∷ uuid ∷ "--name" ∷ name ∷ "--register" ∷ [])
    ++ (if not (basefolder == "") then "--basefolder" ∷ basefolder ∷ [] else [])

-- after the list of the machines
unfoldable pub create_unless : {S : Type 0} → Bool → String → String → String → Exec S Machine
unfolding create_args run get_machine
create_unless true uuid name basefolder = fail machine_exist
create_unless false uuid name basefolder = do
  run (create_args uuid name basefolder)
  get_machine name

unfoldable pub create_machine : {S : Type 0} → String → String → String → Exec S Machine
unfolding list_machines has_machine create_unless
create_machine uuid name basefolder =
    if name == "" || uuid == ""
    then fail (bad_argument name)
    else (do ms ← list_machines; create_unless (has_machine name ms) uuid name basefolder)

unfoldable pub clone_machine : {S : Type 0} → String → String → Bool → Exec S (Unit {0})
unfolding run
clone_machine base new true = run ("clonevm" ∷ base ∷ "--name" ∷ new ∷ "--register" ∷ [])
clone_machine base new false = run ("clonevm" ∷ base ∷ "--name" ∷ new ∷ [])

unfoldable pub clone_hd : {S : Type 0} → String → String → Exec S (Unit {0})
unfolding run
clone_hd input output = run ("clonehd" ∷ input ∷ output ∷ [])

unfoldable pub set_extra : {S : Type 0} → String → String → String → Exec S (Unit {0})
unfolding run
set_extra name key val = run ("setextradata" ∷ name ∷ key ∷ val ∷ [])

unfoldable pub del_extra : {S : Type 0} → String → String → Exec S (Unit {0})
unfolding run
del_extra name key = run ("setextradata" ∷ name ∷ key ∷ [])
