-- ===== src/Machine/Lifecycle/Documented.antt =====
-- doc.go: the states of a machine, the transitions that VBoxManage has, and those that the methods
-- make of them. What VirtualBox does with a command is a parameter that obeys the first table.
pub mod Stops
use mathlib.Core.Path.{subst}
use go_virtualbox.Prelude.{
  String, Bool, true, false, Option, none, List, [], ◌∷◌, ◌++◌, ◌≡◌, refl, sym, ap, ◌∙◌, map,
  append-nil, append_assoc,
}
use go_virtualbox.Go.Outcome.{Outcome, ok, Failure}
use go_virtualbox.Vbcmd.{Exec, Host, World, Invocation, proceed, run}
use go_virtualbox.Vbcmd.Effects.{invocation, outcome_of, ran, script, run-outcome_of}
use go_virtualbox.Machine.Kinds.{
  Machine, MachineState, poweroff_state, running, paused, saved, aborted,
}
use go_virtualbox.Machine.Lifecycle.Plan.{
  Operation, op_start, op_save, op_poweroff, op_reset, operate, plan, kind_of, operate-plan,
}

-- the commands of VBoxManage that change the state of a machine
pub data Control : Type 0 where
  startvm pause_vm resume savestate acpipowerbutton poweroff_vm reset_vm : Control

abbrev pub words : String → Control → List String
words name startvm = "startvm" ∷ name ∷ "--type" ∷ "headless" ∷ []
words name pause_vm = "controlvm" ∷ name ∷ "pause" ∷ []
words name resume = "controlvm" ∷ name ∷ "resume" ∷ []
words name savestate = "controlvm" ∷ name ∷ "savestate" ∷ []
words name acpipowerbutton = "controlvm" ∷ name ∷ "acpipowerbutton" ∷ []
words name poweroff_vm = "controlvm" ∷ name ∷ "poweroff" ∷ []
words name reset_vm = "controlvm" ∷ name ∷ "reset" ∷ []

-- "VBoxManage supports the following transitions between states": the command, the state before it,
-- the states that it passes through, and the state after it
pub data Transition : Control → MachineState → List MachineState → MachineState → Type 0 where
  start_off : Transition startvm poweroff_state [] running
  start_on_disk : Transition startvm saved [] running
  pauses : Transition pause_vm running [] paused
  resumes : Transition resume paused [] running
  saves : Transition savestate running [] saved
  button : Transition acpipowerbutton running [] poweroff_state
  cuts : Transition poweroff_vm running [] poweroff_state
  resets : Transition reset_vm running (poweroff_state ∷ []) running

-- "the following transitions are used instead", the rows of start, save, poweroff and reset, with the
-- states that are passed through; those of stop and restart are in Stops
pub data Promise : Operation → MachineState → List MachineState → MachineState → Type 0 where
  starts_off : Promise op_start poweroff_state [] running
  starts_saved : Promise op_start saved [] running
  starts_paused : Promise op_start paused [] running
  starts_aborted : Promise op_start aborted [] running
  saves_paused : Promise op_save paused (running ∷ []) saved
  saves_running : Promise op_save running [] saved
  cuts_paused : Promise op_poweroff paused (running ∷ []) poweroff_state
  cuts_saved : Promise op_poweroff saved (running ∷ []) poweroff_state
  cuts_running : Promise op_poweroff running [] poweroff_state
  resets_paused : Promise op_reset paused (running ∷ poweroff_state ∷ []) running
  resets_saved : Promise op_reset saved (running ∷ poweroff_state ∷ []) running
  resets_running : Promise op_reset running (poweroff_state ∷ []) running

-- A VirtualBox with the machine `name`. Its state, and the states that it has been in so far, are
-- functions of what ran: a command of the table succeeds, and the machine passes through the states of
-- the table to the last one. Nothing is said of other commands.
pub record VirtualBox (host : Host) (name : String) : Type 0 where
  pub state_of : List Invocation → MachineState
  pub history : List Invocation → List MachineState
  pub works :
      {c : Control} {from to : MachineState} {by : List MachineState} (log : List Invocation)
      → Transition c from by to
      → state_of log ≡ from
      → (host.reply log (invocation host (words name c))).failure ≡ none
  pub moves :
      {c : Control} {from to : MachineState} {by : List MachineState} (log : List Invocation)
      → Transition c from by to
      → state_of log ≡ from
      → state_of (log ++ invocation host (words name c) ∷ []) ≡ to
  pub passes :
      {c : Control} {from to : MachineState} {by : List MachineState} (log : List Invocation)
      → Transition c from by to
      → state_of log ≡ from
      → history (log ++ invocation host (words name c) ∷ []) ≡ history log ++ (by ++ to ∷ [])

-- The call ends without an error, the object is as it was, and the machine has gone through the states
-- of the path and is in the last one.
pub record Brings {host : Host} {name : String} (vb : VirtualBox host name) (w : World Machine)
    (result : Outcome (Unit {0}) × World Machine) (path : List MachineState) (to : MachineState)
    : Type 0 where
  pub after : World Machine
  pub returns : result ≡ (ok tt, after)
  pub kept : after.this ≡ w.this
  pub passed : vb.history after.log ≡ vb.history w.log ++ path
  pub reached : vb.state_of after.log ≡ to

-- commands that lead from a state to another, and the states after the first one
pub data Way : List Control → MachineState → List MachineState → MachineState → Type 0 where
  at_once : {s : MachineState} → Way [] s [] s
  by_way_of :
      {c : Control} {cs : List Control} {s u t : MachineState} {by path : List MachineState}
      → Transition c s by u
      → Way cs u path t
      → Way (c ∷ cs) s ((by ++ u ∷ []) ++ path) t

module _ {host : Host} {name : String} (vb : VirtualBox host name) where
  run-Transition :
      {c : Control} {from to : MachineState} {by : List MachineState} (w : World Machine)
      → Transition c from by to
      → vb.state_of w.log ≡ from
      → run (words name c) host w ≡ (ok tt, ran host (words name c) w)
  run-Transition {c} w step at =
      run-outcome_of (words name c) host w
      ∙ ap (λ o. (outcome_of o, ran host (words name c) w)) (vb.works w.log step at)

  pub script-Way :
      {cs : List Control} {from to : MachineState} {path : List MachineState} (w : World Machine)
      → Way cs from path to
      → vb.state_of w.log ≡ from
      → Brings vb w (script (map (words name) cs) host w) path to
  unfolding script
  script-Way w at_once at = record {
    after = w;
    returns = refl;
    kept = refl;
    passed = sym (append-nil _);
    reached = at;
  }
  script-Way w (by_way_of {c} {cs} {by = by} {path = path} step way) at =
      let v = ran host (words name c) w in
      let rest = script-Way v way (vb.moves w.log step at) in
      record {
        after = rest.after;
        returns =
            ap (λ r. proceed r (λ _. script (map (words name) cs)) host) (run-Transition w step at)
            ∙ rest.returns;
        kept = rest.kept;
        passed =
            rest.passed
            ∙ ap (λ h. h ++ path) (vb.passes w.log step at)
            ∙ append_assoc (vb.history w.log) _ path;
        reached = rest.reached;
      }

  -- an operation whose plan goes a way
  operate-Way :
      (op : Operation) (cs : List Control) {from to : MachineState} {path : List MachineState}
      (w : World Machine)
      → plan op (kind_of from) name ≡ map (words name) cs
      → Way cs from path to
      → w.this.name ≡ name
      → w.this.state ≡ from
      → vb.state_of w.log ≡ from
      → Brings vb w (operate op host w) path to
  operate-Way op cs {from} {to} {path} w plan_is way named state at =
      subst (λ r. Brings vb w r path to)
        (sym (
          operate-plan op host w
          ∙ ap (λ k. script (plan op k w.this.name) host w) (ap (λ s. kind_of s) state)
          ∙ ap (λ n. script (plan op (kind_of from) n) host w) named
          ∙ ap (λ l. script l host w) plan_is))
        (script-Way w way at)

-- The rows that the commands of the methods do not make. `startvm` is documented for machines that
-- are off or saved; `poweroff` only for those that run, and it does nothing to a saved machine.
abbrev pub is_made :
    {op : Operation} {from to : MachineState} {by : List MachineState}
    → Promise op from by to
    → Bool
is_made starts_off = true
is_made starts_saved = true
is_made starts_paused = true
is_made starts_aborted = false
is_made saves_paused = true
is_made saves_running = true
is_made cuts_paused = false
is_made cuts_saved = false
is_made cuts_running = true
is_made resets_paused = true
is_made resets_saved = true
is_made resets_running = true

-- On each VirtualBox that obeys the documented table of VBoxManage, `Start`, `Save`, `Poweroff` and
-- `Reset` bring the machine, whose state `m` has, without an error into the state that the
-- documentation of the package promises, by way of the states that it names there and no others: a
-- reset goes through poweroff. Three rows that the table does not cover are left out, the start of
-- an aborted machine and `Poweroff` of one that is paused or saved.
pub operate-Promise :
    {host : Host} {name : String} (vb : VirtualBox host name) {op : Operation}
    {from to : MachineState} {by : List MachineState} (w : World Machine)
    (row : Promise op from by to)
    → is_made row ≡ true
    → w.this.name ≡ name
    → w.this.state ≡ from
    → vb.state_of w.log ≡ from
    → Brings vb w (operate op host w) (by ++ to ∷ []) to
operate-Promise vb w starts_off made =
    operate-Way vb op_start (startvm ∷ []) w refl (by_way_of start_off at_once)
operate-Promise vb w starts_saved made =
    operate-Way vb op_start (startvm ∷ []) w refl (by_way_of start_on_disk at_once)
operate-Promise vb w starts_paused made =
    operate-Way vb op_start (resume ∷ []) w refl (by_way_of resumes at_once)
operate-Promise vb w starts_aborted made = cc
operate-Promise vb w saves_paused made =
    operate-Way vb op_save (resume ∷ savestate ∷ []) w refl
      (by_way_of resumes (by_way_of saves at_once))
operate-Promise vb w saves_running made =
    operate-Way vb op_save (savestate ∷ []) w refl (by_way_of saves at_once)
operate-Promise vb w cuts_paused made = cc
operate-Promise vb w cuts_saved made = cc
operate-Promise vb w cuts_running made =
    operate-Way vb op_poweroff (poweroff_vm ∷ []) w refl (by_way_of cuts at_once)
operate-Promise vb w resets_paused made =
    operate-Way vb op_reset (resume ∷ reset_vm ∷ []) w refl
      (by_way_of resumes (by_way_of resets at_once))
operate-Promise vb w resets_saved made =
    operate-Way vb op_reset (startvm ∷ reset_vm ∷ []) w refl
      (by_way_of start_on_disk (by_way_of resets at_once))
operate-Promise vb w resets_running made =
    operate-Way vb op_reset (reset_vm ∷ []) w refl (by_way_of resets at_once)
