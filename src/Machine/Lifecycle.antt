-- ===== src/Machine/Lifecycle.antt =====
-- machine.go: the methods that start, stop and remove a machine. `this` is the machine `m`.
pub mod Plan
pub mod Stopping
pub mod Restarting
pub mod Exclusive
pub mod Getting
pub mod Documented
use go_virtualbox.Prelude.{
  ℕ, zero, suc, ◌+◌, String, Bool, true, false, not, ◌||◌, Option, none, some, List, [], ◌∷◌, ◌++◌,
  ◌==◌, if◌then◌else◌, append,
}
use go_virtualbox.CmdArgs.{CmdArg, CmdArgs, zero_cmd_args, append_arg, append_override, args}
use go_virtualbox.Go.Outcome.{ok}
use go_virtualbox.Go.Strconv.{decimal}
use go_virtualbox.Vbcmd.{Exec, ◌>>=◌, ◌>>◌, Host, lift, pure, this, set_this, run, run_out_err}
use go_virtualbox.Machine.Kinds.{Machine, MachineState, poweroff_state, paused, saved, aborted}
use go_virtualbox.Machine.Info.{machine_of_reply}

abbrev host : {S : Type 0} → Exec S Host
host h w = (ok h, w)

-- GetMachine; the calls are in the order that the mutex gives them
unfoldable pub get_machine : {S : Type 0} → String → Exec S Machine
unfolding run_out_err machine_of_reply
get_machine id = do
  (stdout, stderr, e) ← run_out_err ("showvminfo" ∷ id ∷ "--machinereadable" ∷ [])
  h ← host
  lift (machine_of_reply h.stat h.dir stdout stderr e)

abbrev pub id_of : Machine → String
id_of m = if m.name == "" then m.uuid else m.name

unfoldable pub refresh : Exec Machine (Unit {0})
unfolding get_machine
refresh = do m ← this; mm ← get_machine (id_of m); set_this mm

-- for _, p := range startVmParamOverrides
unfoldable pub append_overrides : List CmdArg → CmdArgs → CmdArgs
unfolding append_override
append_overrides [] c = c
append_overrides (p ∷ ps) c = append_overrides ps (append_override (p ∷ []) c)

-- the command line of `startvm`
unfoldable pub start_args : String → List CmdArg → List String
unfolding append_arg append_overrides args
start_args name overrides =
    "startvm"
    ∷ name
    ∷ args (append_overrides overrides (append_arg "--type" "headless" zero_cmd_args))

unfoldable pub start_from : MachineState → String → List CmdArg → Exec Machine (Unit {0})
unfolding start_args run
start_from state name overrides =
    if state == paused
    then run ("controlvm" ∷ name ∷ "resume" ∷ [])
    else if state == poweroff_state || (state == saved || state == aborted)
    then run (start_args name overrides)
    else pure tt

unfoldable pub start : List CmdArg → Exec Machine (Unit {0})
unfolding start_from
start overrides = do m ← this; start_from m.state m.name overrides

unfoldable pub disconnect_serial_port : ℕ → Exec Machine (Unit {0})
disconnect_serial_port port_number = do
  m ← this
  run ("modifyvm" ∷ m.name ∷ append "--uartmode" (decimal port_number) ∷ "disconnected" ∷ [])

-- case Poweroff, Aborted, Saved
unfoldable pub is_down : MachineState → Bool
is_down state = state == poweroff_state || (state == aborted || state == saved)

-- case Paused: m.Start()
unfoldable pub resume_if : Bool → Exec Machine (Unit {0})
unfolding start
resume_if true = start []
resume_if false = pure tt

unfoldable pub save : Exec Machine (Unit {0})
unfolding is_down resume_if run
save = do
  m ← this
  (if is_down m.state
      then pure tt
      else resume_if (m.state == paused) >> run ("controlvm" ∷ m.name ∷ "savestate" ∷ []))

unfoldable pub pause : Exec Machine (Unit {0})
unfolding is_down run
pause = do
  m ← this
  (if m.state == paused || is_down m.state
      then pure tt
      else run ("controlvm" ∷ m.name ∷ "pause" ∷ []))

-- The loop of `Stop`, on fuel: `none` when the fuel is out. The wait of a second is left out.
unfoldable pub stop_loop : ℕ → Exec Machine (Option (Unit {0}))
unfolding run refresh
stop_loop zero = pure none
stop_loop (suc fuel) = do
  m ← this
  (if m.state == poweroff_state
      then pure (some tt)
      else (do run ("controlvm" ∷ m.name ∷ "acpipowerbutton" ∷ []); refresh; stop_loop fuel))

unfoldable pub stop : ℕ → Exec Machine (Option (Unit {0}))
unfolding is_down resume_if stop_loop
stop fuel = do
  m ← this
  (if is_down m.state then pure (some tt) else resume_if (m.state == paused) >> stop_loop fuel)

unfoldable pub poweroff : Exec Machine (Unit {0})
unfolding is_down run
poweroff = do
  m ← this
  (if is_down m.state then pure tt else run ("controlvm" ∷ m.name ∷ "poweroff" ∷ []))

-- what follows a call of `Stop` that ended
unfoldable pub start_after : Option (Unit {0}) → Exec Machine (Option (Unit {0}))
unfolding start
start_after none = pure none
start_after (some done) = start [] >>= λ started. pure (some started)

unfoldable pub restart : ℕ → Exec Machine (Option (Unit {0}))
unfolding stop start_after
restart fuel = do
  m ← this
  resume_if (m.state == paused || m.state == saved)
  stopped ← stop fuel
  start_after stopped

unfoldable pub reset : Exec Machine (Unit {0})
unfolding resume_if run
reset = do
  m ← this
  resume_if (m.state == paused || m.state == saved)
  run ("controlvm" ∷ m.name ∷ "reset" ∷ [])

unfoldable pub delete : Exec Machine (Unit {0})
unfolding poweroff run
delete = do m ← this; poweroff; run ("unregistervm" ∷ m.name ∷ "--delete" ∷ [])

unfoldable pub unregister : Exec Machine (Unit {0})
unfolding poweroff run
unregister = do m ← this; poweroff; run ("unregistervm" ∷ m.name ∷ [])
