-- ===== src/Machine/Lifecycle/Documented/Stops.antt =====
-- doc.go: `Stop` and `Restart` on a VirtualBox that obeys the table of VBoxManage.
use go_virtualbox.Prelude.{
  ℕ, ◌<◌, String, false, none, some, List, [], ◌∷◌, ◌++◌, ◌≡◌, refl, ap, ◌∙◌, ◌==◌, append_assoc,
}
use go_virtualbox.Go.Outcome.{ok}
use go_virtualbox.Vbcmd.{Host, World, Invocation, run, run_out_err, error_of}
use go_virtualbox.Vbcmd.Effects.{invocation, ran}
use go_virtualbox.Machine.Kinds.{Machine, MachineState, poweroff_state, running, paused}
use go_virtualbox.Machine.Info.{machine_of_reply}
use go_virtualbox.Machine.Lifecycle.{
  refresh, id_of, get_machine, stop, restart, start_after, resume_if, is_down,
}
use go_virtualbox.Machine.Lifecycle.Getting.{showvminfo}
use go_virtualbox.Machine.Lifecycle.Stopping.{Stops, is_off, press, stop-enough}
use go_virtualbox.Machine.Lifecycle.Documented.{
  VirtualBox, button, acpipowerbutton, words, operate-Promise, starts_paused, starts_off,
  run-Transition,
}

-- `showvminfo` succeeds, prints a text that is read as the machine with its name and its state, and
-- leaves the machine where it is.
pub record Shows {host : Host} {name : String} (vb : VirtualBox host name) : Type 0 where
  pub named : (name == "") ≡ false
  pub machine : List Invocation → Machine
  pub succeeds :
      (log : List Invocation) → (host.reply log (invocation host (showvminfo name))).failure ≡ none
  pub prints :
      (log : List Invocation)
      → let reply = host.reply log (invocation host (showvminfo name)) in
        machine_of_reply host.stat host.dir reply.stdout reply.stderr none ≡ ok (machine log)
  pub same_name : (log : List Invocation) → (machine log).name ≡ name
  pub same_state : (log : List Invocation) → (machine log).state ≡ vb.state_of log
  pub keeps :
      (log : List Invocation)
      → vb.state_of (log ++ invocation host (showvminfo name) ∷ []) ≡ vb.state_of log
  pub stays :
      (log : List Invocation)
      → vb.history (log ++ invocation host (showvminfo name) ∷ []) ≡ vb.history log

module _ {host : Host} {name : String} {vb : VirtualBox host name} (shows : Shows vb) where
  abbrev looked : World Machine → World Machine
  looked w = record {
    log = w.log ++ invocation host (showvminfo name) ∷ [];
    this = shows.machine w.log;
  }

  get_machine-looked :
      (w : World Machine)
      → get_machine name host w ≡ (ok (shows.machine w.log), record (looked w) { this = w.this })
  unfolding get_machine run_out_err error_of
  get_machine-looked w =
      let reply = host.reply w.log (invocation host (showvminfo name)) in
      let after : World Machine = record (looked w) { this = w.this } in
      ap (λ f. (machine_of_reply host.stat host.dir reply.stdout reply.stderr (error_of f), after))
        (shows.succeeds w.log)
      ∙ ap (λ o. (o, after)) (shows.prints w.log)

  id_of-name : (m : Machine) → m.name ≡ name → id_of m ≡ name
  id_of-name m named = rw named (rw shows.named refl)

  refresh-looked : (w : World Machine) → w.this.name ≡ name → refresh host w ≡ (ok tt, looked w)
  unfolding refresh
  refresh-looked w named = rw (id_of-name w.this named) (rw (get_machine-looked w) refl)

  -- a machine that is off, as the object and VirtualBox have it
  pub record IsOff (w : World Machine) : Type 0 where
    pub is_named : w.this.name ≡ name
    pub off : w.this.state ≡ poweroff_state
    pub there : vb.state_of w.log ≡ poweroff_state

  -- Stop returns, and the machine has gone through the states of the path and is off.
  pub record Goes (fuel : ℕ) (w : World Machine) (path : List MachineState) : Type 0 where
    pub after : World Machine
    pub returns : stop fuel host w ≡ (ok (some tt), after)
    pub passed : vb.history after.log ≡ vb.history w.log ++ path
    pub is_off : IsOff after

  -- one press of the power button from a machine that runs
  press-Stops :
      (w : World Machine)
      → w.this.name ≡ name
      → (w.this.state == "poweroff") ≡ false
      → vb.state_of w.log ≡ running
      → let v = ran host (words name acpipowerbutton) w in
        Stops host 1 w (looked v)
        × IsOff (looked v)
        × (vb.history (looked v).log ≡ vb.history w.log ++ poweroff_state ∷ [])
  press-Stops w named on at =
      let v = ran host (words name acpipowerbutton) w in
      let state : (looked v).this.state ≡ poweroff_state =
        shows.same_state v.log ∙ vb.moves w.log button at in
      (
        press v (looked v) on
            (ap (λ n. run ("controlvm" ∷ n ∷ "acpipowerbutton" ∷ []) host w) named
              ∙ run-Transition vb w button at)
            (refresh-looked v named) (is_off (ap (λ s. s == "poweroff") state)),
        record {
          is_named = shows.same_name v.log;
          off = state;
          there = shows.keeps v.log ∙ vb.moves w.log button at;
        },
        shows.stays v.log ∙ vb.passes w.log button at,
      )

  resume_if-state :
      (w : World Machine) {state : MachineState}
      → w.this.state ≡ state
      → resume_if (w.this.state == paused) host w ≡ resume_if (state == paused) host w
  resume_if-state w e = ap (λ s. resume_if (s == paused) host w) e

  stop-running :
      (fuel : ℕ) (w : World Machine)
      → 1 < fuel
      → w.this.name ≡ name
      → w.this.state ≡ running
      → vb.state_of w.log ≡ running
      → Goes fuel w (poweroff_state ∷ [])
  unfolding is_down resume_if
  stop-running fuel w enough named state at =
      let (stops, off, passed) = press-Stops w named (ap (λ s. s == "poweroff") state) at in
      record {
        after = looked (ran host (words name acpipowerbutton) w);
        returns =
            stop-enough host 1 fuel w w _ (ap is_down state) (resume_if-state w state) stops enough;
        passed = passed;
        is_off = off;
      }

  stop-paused :
      (fuel : ℕ) (w : World Machine)
      → 1 < fuel
      → w.this.name ≡ name
      → w.this.state ≡ paused
      → vb.state_of w.log ≡ paused
      → Goes fuel w (running ∷ poweroff_state ∷ [])
  unfolding is_down resume_if
  stop-paused fuel w enough named state at =
      let woken = operate-Promise vb w starts_paused refl named state at in
      let v = woken.after in
      let object = woken.kept in
      let (stops, off, passed) =
        press-Stops v (ap (λ m. m.name) object ∙ named)
          (ap (λ m. m.state == "poweroff") object ∙ ap (λ s. s == "poweroff") state)
          woken.reached in
      record {
        after = looked (ran host (words name acpipowerbutton) v);
        returns =
            stop-enough host 1 fuel w v _ (ap is_down state)
              (resume_if-state w state ∙ woken.returns) stops enough;
        passed =
            passed
            ∙ ap (λ h. h ++ poweroff_state ∷ []) woken.passed
            ∙ append_assoc (vb.history w.log) _ _;
        is_off = off;
      }

  -- The rows that `Stop` is documented for and makes, with the states that are passed through. The row
  -- of a saved machine is left out: `Stop` returns there at once.
  pub data Stoppable : MachineState → List MachineState → Type 0 where
    runs : Stoppable running []
    is_halted : Stoppable paused (running ∷ [])

  -- On a VirtualBox that obeys the documented table of VBoxManage, and whose `showvminfo` prints the
  -- state, `Stop` of a machine that runs or is paused returns with the machine powered off, as `m`
  -- and VirtualBox have it, by way of `running` if it was paused, and two looks at the state are
  -- enough.
  pub stop-Stoppable :
      {from : MachineState} {by : List MachineState} (fuel : ℕ) (w : World Machine)
      → Stoppable from by
      → 1 < fuel
      → w.this.name ≡ name
      → w.this.state ≡ from
      → vb.state_of w.log ≡ from
      → Goes fuel w (by ++ poweroff_state ∷ [])
  stop-Stoppable fuel w runs enough = stop-running fuel w enough
  stop-Stoppable fuel w is_halted enough = stop-paused fuel w enough

  -- Restart has made the machine go through poweroff to running, and the object has the state that was
  -- read in between.
  pub record Restarts (fuel : ℕ) (w : World Machine) : Type 0 where
    pub after : World Machine
    pub returns : restart fuel host w ≡ (ok (some tt), after)
    pub passed : vb.history after.log ≡ vb.history w.log ++ poweroff_state ∷ running ∷ []
    pub reached : vb.state_of after.log ≡ running
    pub read_between : after.this.state ≡ poweroff_state

  -- On a VirtualBox that obeys the documented table of VBoxManage, and whose `showvminfo` prints the
  -- state, `Restart` of a machine that runs returns without an error, and the machine has gone
  -- from there to poweroff and back to running; two looks at the state are enough. `m` still has the
  -- state that was read when the machine was off.
  pub restart-Restarts :
      (fuel : ℕ) (w : World Machine)
      → 1 < fuel
      → w.this.name ≡ name
      → w.this.state ≡ running
      → vb.state_of w.log ≡ running
      → Restarts fuel w
  unfolding restart resume_if start_after
  restart-Restarts fuel w enough named state at =
      let stopped = stop-running fuel w enough named state at in
      let off = stopped.is_off in
      let started =
        operate-Promise vb stopped.after starts_off refl off.is_named off.off off.there in
      let awake : (w.this.state == "paused") ≡ false = ap (λ s. s == "paused") state in
      let here : (w.this.state == "saved") ≡ false = ap (λ s. s == "saved") state in
      record {
        after = started.after;
        returns = rw (awake, here) (rw stopped.returns (rw started.returns refl));
        passed =
            started.passed
            ∙ ap (λ h. h ++ running ∷ []) stopped.passed
            ∙ append_assoc (vb.history w.log) _ _;
        reached = started.reached;
        read_between = ap (λ m. m.state) started.kept ∙ off.off;
      }
