-- ===== src/Tests/Stops.antt =====
-- `Stop` and `CreateMachine` on a host that replies as VBoxManage does.
use go_virtualbox.Prelude.{
  ℕ, zero, suc, ◌+◌, ◌≤◌, ◌<◌, String, Bool, true, false, ◌||◌, Option, none, some, List, [], ◌∷◌,
  insert, ◌++◌, ◌≡◌, refl, arith, elem, map, length, update, ◌==◌, if◌then◌else◌, append, lookup,
  insert,
}
use go_virtualbox.Go.Outcome.{ok, err, machine_exist}
use go_virtualbox.Vbcmd.{Command, Invocation, Reply, Host, World, proceed, ◌>>=◌, pure, run}
use go_virtualbox.Vbcmd.Effects.{ran, invocation}
use go_virtualbox.Machine.Kinds.{Machine}
use go_virtualbox.Machine.Lifecycle.{refresh, stop, is_down, resume_if}
use go_virtualbox.Machine.Lifecycle.Stopping.{Stops, is_off, press, stop-enough, stop-Stops}
use go_virtualbox.Machine.Registry.{create_machine, list_machines}
use go_virtualbox.Machine.Lifecycle.Exclusive.{
  Callers, outside, locked, running, finished, begun, ended, locks, begins, ends, unlocks, Reach,
  begin, later, IsExclusive, Reach-IsExclusive,
}
use go_virtualbox.Machine.Registry.Listing.{Visits, list_machines-unlines}
use go_virtualbox.Machine.Registry.Listing.Shown.{Vm, line_of}
use go_virtualbox.Go.Scanner.RoundTrip.{are_lines}
use go_virtualbox.Uart.Key.{uart1, uart2, uart3, uart4}
use go_virtualbox.Uart.Device.{uart_off_from_key}
use go_virtualbox.Tests.Hosts.{obedient, vm_in}

abbrev button : List String
button = "controlvm" ∷ "vm" ∷ "acpipowerbutton" ∷ []

abbrev pressed_once : World Machine
pressed_once = ran obedient button (vm_in "running")

-- the machine that `showvminfo` describes
abbrev seen : Machine
seen = record {
  name = "vm";
  uuid = "";
  state = "poweroff";
  cpus = 2;
  memory = 1;
  vram = 8;
  cfg_file = "";
  base_folder = "";
  os_type = "";
  flag = 0;
  boot_order = [];
  nics = [];
  uarts =
      uart_off_from_key uart1
      ∷ uart_off_from_key uart2
      ∷ uart_off_from_key uart3
      ∷ uart_off_from_key uart4
      ∷ [];
  storage_controllers = [];
}

abbrev seen_off : World Machine
seen_off = record {
  log =
      invocation obedient button
      ∷ invocation obedient ("showvminfo" ∷ "vm" ∷ "--machinereadable" ∷ [])
      ∷ [];
  this = seen;
}

seen_again : refresh obedient pressed_once ≡ (ok tt, seen_off)
unfolding refresh go_virtualbox.Vbcmd.error_of go_virtualbox.Vbcmd.prepare lookup
    go_virtualbox.Prelude.insert go_virtualbox.Go.Strconv.decimal
    go_virtualbox.Uart.Key.uart_key_from_rank
seen_again = refl

pressed_ok : run button obedient (vm_in "running") ≡ (ok tt, pressed_once)
unfolding run go_virtualbox.Vbcmd.error_of
pressed_ok = refl

one_press : Stops obedient 1 (vm_in "running") seen_off
one_press = press pressed_once seen_off refl pressed_ok seen_again (is_off refl)

up : is_down "running" ≡ false
unfolding is_down
up = refl

not_paused : resume_if ("running" == "paused") obedient (vm_in "running") ≡ (ok tt, vm_in "running")
unfolding resume_if
not_paused = refl

stop-enough_example : stop 2 obedient (vm_in "running") ≡ (ok (some tt), seen_off)
stop-enough_example =
    stop-enough obedient 1 2 (vm_in "running") (vm_in "running") seen_off up not_paused one_press
      (omega arith)

stopped_in_two : stop 2 obedient (vm_in "running") ≡ (ok (some tt), seen_off)
stopped_in_two =
    stop-enough obedient 1 2 (vm_in "running") (vm_in "running") seen_off up not_paused one_press
      (omega arith)

stop-Stops_example :
    (resumed : World Machine) × (k : ℕ) × Stops obedient k resumed seen_off
    × (resume_if ("running" == "paused") obedient (vm_in "running") ≡ (ok tt, resumed))
    × ((seen_off.this.state == "poweroff") ≡ true)
stop-Stops_example = stop-Stops obedient 2 (vm_in "running") seen_off up stopped_in_two

abbrev listed : World Machine
listed = record (vm_in "") {
  log =
      invocation obedient ("list" ∷ "vms" ∷ [])
      ∷ invocation obedient ("showvminfo" ∷ "vm" ∷ "--machinereadable" ∷ [])
      ∷ [];
}

one_listed : list_machines obedient (vm_in "") ≡ (ok (seen ∷ []), listed)
unfolding list_machines go_virtualbox.Vbcmd.error_of go_virtualbox.Vbcmd.prepare lookup
    go_virtualbox.Prelude.insert go_virtualbox.Go.Strconv.decimal
    go_virtualbox.Uart.Key.uart_key_from_rank
one_listed = refl

-- `ErrMachineExist`, and no command behind those of the list
refused : create_machine "a-2" "vm" "" obedient (vm_in "") ≡ (err machine_exist, listed)
unfolding create_machine
refused = rw one_listed refl

abbrev vm_listed : Vm
vm_listed = record { initial = "v"; others = "m"; digit = "a"; digits = "-1" }

vm_is_line : are_lines (line_of vm_listed ∷ []) ≡ true
unfolding are_lines
vm_is_line = refl

list_machines-unlines_example :
    let (result, after) = list_machines obedient (vm_in "") in
    Visits obedient ("vm" ∷ []) [] (ran obedient ("list" ∷ "vms" ∷ []) (vm_in "")) result after
unfolding go_virtualbox.Vbcmd.prepare
list_machines-unlines_example =
    list_machines-unlines (vm_listed ∷ []) obedient (vm_in "")
      (((omega arith, (omega arith, tt)), (refl, (refl, (refl, tt)))), tt) vm_is_line refl refl

-- two callers one after the other; the second one is in the command
abbrev second_runs : Callers
second_runs = record {
  mutex = true;
  at =
      update
        (update
          (update (update (update (update (λ i. outside) 0 locked) 0 running) 0 finished) 0 outside)
          1 locked)
        1 running;
  trace = begun 0 ∷ ended 0 ∷ begun 1 ∷ [];
}

two_callers : Reach second_runs
unfolding native.Mathlib.Decide.ℕ_discrete
two_callers =
    later
      (later
        (later (later (later (later begin (locks 0 refl refl)) (begins 0 refl)) (ends 0 refl))
          (unlocks 0 refl))
        (locks 1 refl refl))
      (begins 1 refl)

Reach-IsExclusive_example : IsExclusive second_runs
Reach-IsExclusive_example = Reach-IsExclusive two_callers
