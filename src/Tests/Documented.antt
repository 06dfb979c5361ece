-- ===== src/Tests/Documented.antt =====
-- A VirtualBox with one machine that obeys the documented table, and the methods on it.
use go_virtualbox.Prelude.{
  ℕ, ◌<◌, String, Bool, true, false, none, some, List, [], ◌∷◌, ◌++◌, ◌≡◌, refl, ap, ◌∙◌, arith,
  ◌||◌, ◌==◌, if◌then◌else◌, elem, append, sym, append-nil, append_assoc,
}
use go_virtualbox.Go.Outcome.{ok}
use go_virtualbox.Vbcmd.{Host, World, Invocation}
use go_virtualbox.Machine.Kinds.{Machine, MachineState, running}
use go_virtualbox.Machine.Info.{machine_of_reply}
use go_virtualbox.Machine.Lifecycle.Plan.{operate, op_reset}
use go_virtualbox.Machine.Lifecycle.Documented.{
  Control, words, VirtualBox, Transition, start_off, start_on_disk, pauses, resumes, saves, button,
  cuts, resets, Brings, operate-Promise, resets_saved,
}
use go_virtualbox.Machine.Lifecycle.Getting.{showvminfo}
use go_virtualbox.Machine.Lifecycle.Documented.Stops.{
  Shows, Goes, Restarts, stop-Stoppable, restart-Restarts, is_halted,
}
use go_virtualbox.Vbcmd.Effects.{invocation}
use go_virtualbox.Uart.Key.{uart1, uart2, uart3, uart4}
use go_virtualbox.Uart.Device.{uart_off_from_key}
use go_virtualbox.Tests.Hosts.{vboxmanage, vm_in}

data Power : Type 0 where
  is_off is_on is_paused is_stored : Power

abbrev shown : Power → MachineState
shown is_off = "poweroff"
shown is_on = "running"
shown is_paused = "paused"
shown is_stored = "saved"

abbrev advance : Power → List String → Power
advance p argv =
    if elem "startvm" argv || (elem "resume" argv || elem "reset" argv)
    then is_on
    else if elem "pause" argv
    then is_paused
    else if elem "savestate" argv
    then is_stored
    else if elem "acpipowerbutton" argv || elem "poweroff" argv
    then is_off
    else p

abbrev power_from : Power → List Invocation → Power
power_from p [] = p
power_from p (inv ∷ log) = power_from (advance p inv.argv) log

power_from-append :
    (p : Power) (log : List Invocation) (inv : Invocation)
    → power_from p (log ++ inv ∷ []) ≡ advance (power_from p log) inv.argv
power_from-append p [] inv = refl
power_from-append p (first ∷ log) inv = power_from-append (advance p first.argv) log inv

-- the states that a command makes the machine pass through
abbrev moved : Power → List String → List MachineState
moved p argv =
    if elem "reset" argv
    then "poweroff" ∷ "running" ∷ []
    else if elem "showvminfo" argv
    then []
    else shown (advance p argv) ∷ []

abbrev moves_from : Power → List Invocation → List MachineState
moves_from p [] = []
moves_from p (inv ∷ log) = moved p inv.argv ++ moves_from (advance p inv.argv) log

moves_from-append :
    (p : Power) (log : List Invocation) (inv : Invocation)
    → moves_from p (log ++ inv ∷ []) ≡ moves_from p log ++ moved (power_from p log) inv.argv
moves_from-append p [] inv = append-nil _
moves_from-append p (first ∷ log) inv =
    ap (λ l. moved p first.argv ++ l) (moves_from-append (advance p first.argv) log inv)
    ∙ sym (append_assoc (moved p first.argv) _ _)

abbrev info : Power → String
info is_off = "name=\"vm\"\nVMState=\"poweroff\"\nmemory=1\ncpus=1\nvram=1\n"
info is_on = "name=\"vm\"\nVMState=\"running\"\nmemory=1\ncpus=1\nvram=1\n"
info is_paused = "name=\"vm\"\nVMState=\"paused\"\nmemory=1\ncpus=1\nvram=1\n"
info is_stored = "name=\"vm\"\nVMState=\"saved\"\nmemory=1\ncpus=1\nvram=1\n"

-- at first the machine is in the given state
abbrev host_from : Power → Host
host_from p = record {
  os = "linux";
  manage = vboxmanage;
  stat = λ path. none;
  dir = λ path. path;
  reply = λ log inv. record { stdout = info (power_from p log); stderr = ""; failure = none };
}

advance_box :
    {c : Control} {from to : MachineState} {by : List MachineState} (p q : Power)
    → Transition c from by to
    → shown (advance q (invocation (host_from p) (words "vm" c)).argv) ≡ to
unfolding go_virtualbox.Vbcmd.prepare
advance_box p q start_off = refl
advance_box p q start_on_disk = refl
advance_box p q pauses = refl
advance_box p q resumes = refl
advance_box p q saves = refl
advance_box p q button = refl
advance_box p q cuts = refl
advance_box p q resets = refl

moved_box :
    {c : Control} {from to : MachineState} {by : List MachineState} (p q : Power)
    → Transition c from by to
    → moved q (invocation (host_from p) (words "vm" c)).argv ≡ by ++ to ∷ []
unfolding go_virtualbox.Vbcmd.prepare
moved_box p q start_off = refl
moved_box p q start_on_disk = refl
moved_box p q pauses = refl
moved_box p q resumes = refl
moved_box p q saves = refl
moved_box p q button = refl
moved_box p q cuts = refl
moved_box p q resets = refl

abbrev box : (p : Power) → VirtualBox (host_from p) "vm"
box p = record {
  state_of = λ log. shown (power_from p log);
  history = λ log. moves_from p log;
  works = λ log step at. refl;
  moves =
      λ log step at. ap shown (power_from-append p log _) ∙ advance_box p (power_from p log) step;
  passes = λ log step at.
      moves_from-append p log _
      ∙ ap (λ l. moves_from p log ++ l) (moved_box p (power_from p log) step);
}

abbrev vm_at : Power → Machine
vm_at p = record {
  name = "vm";
  uuid = "";
  state = shown p;
  cpus = 1;
  memory = 1;
  vram = 1;
  cfg_file = "";
  base_folder = "";
  os_type = "";
  flag = 0;
  boot_order = [];
  nics = [];
  uarts =
      uart_off_from_key uart1
      ∷ uart_off_from_key uart2
      ∷ uart_off_from_key uart3
      ∷ uart_off_from_key uart4
      ∷ [];
  storage_controllers = [];
}

read_at :
    (p : Power) → machine_of_reply (λ path. none) (λ path. path) (info p) "" none ≡ ok (vm_at p)
unfolding machine_of_reply go_virtualbox.Prelude.lookup go_virtualbox.Prelude.insert
    go_virtualbox.Go.Strconv.decimal go_virtualbox.Uart.Key.uart_key_from_rank
read_at is_off = refl
read_at is_on = refl
read_at is_paused = refl
read_at is_stored = refl

look_keeps :
    (p : Power) (log : List Invocation)
    → shown (power_from p (log ++ invocation (host_from p) (showvminfo "vm") ∷ []))
      ≡ shown (power_from p log)
unfolding go_virtualbox.Vbcmd.prepare
look_keeps p log = ap shown (power_from-append p log _)

look_stays :
    (p : Power) (log : List Invocation)
    → moves_from p (log ++ invocation (host_from p) (showvminfo "vm") ∷ []) ≡ moves_from p log
unfolding go_virtualbox.Vbcmd.prepare
look_stays p log = moves_from-append p log _ ∙ append-nil (moves_from p log)

abbrev box_shows : (p : Power) → Shows (box p)
box_shows p = record {
  named = refl;
  machine = λ log. vm_at (power_from p log);
  succeeds = λ log. refl;
  prints = λ log. read_at (power_from p log);
  same_name = λ log. refl;
  same_state = λ log. refl;
  keeps = look_keeps p;
  stays = look_stays p;
}

-- `Reset` of a saved machine
operate-Promise_example :
    Brings
      (box is_stored)
      (vm_in "saved")
      (operate op_reset (host_from is_stored) (vm_in "saved"))
      ("running" ∷ "poweroff" ∷ "running" ∷ [])
      running
operate-Promise_example =
    operate-Promise (box is_stored) (vm_in "saved") resets_saved refl refl refl refl

-- `Stop` of a paused machine
stop-Stoppable_example : Goes (box_shows is_paused) 2 (vm_in "paused") ("running" ∷ "poweroff" ∷ [])
stop-Stoppable_example =
    stop-Stoppable (box_shows is_paused) 2 (vm_in "paused") is_halted (omega arith) refl refl refl

restart-Restarts_example : Restarts (box_shows is_on) 2 (vm_in "running")
restart-Restarts_example =
    restart-Restarts (box_shows is_on) 2 (vm_in "running") (omega arith) refl refl refl
