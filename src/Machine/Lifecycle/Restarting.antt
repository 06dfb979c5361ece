-- ===== src/Machine/Lifecycle/Restarting.antt =====
-- `Restart` of a machine that is paused or whose state is on disk.
use go_virtualbox.Prelude.{
  ℕ, String, true, false, some, List, [], ◌∷◌, ◌≡◌, refl, sym, ◌∙◌, ap, ◌==◌,
}
use go_virtualbox.Go.Outcome.{Outcome, ok, err, panic}
use go_virtualbox.Vbcmd.{proceed, ◌>>=◌, ◌>>◌, Host, World, pure, run}
use go_virtualbox.Vbcmd.Effects.{script, script_one, run-outcome_of, outcome_of, ran, failure_of}
use go_virtualbox.Machine.Kinds.{Machine}
use go_virtualbox.Machine.Lifecycle.{
  restart, start_after, stop, stop_loop, resume_if, start, is_down,
}
use go_virtualbox.Machine.Lifecycle.Plan.{kind_of, plan_start, start-plan}

abbrev startvm : String → List String
startvm name = "startvm" ∷ name ∷ "--type" ∷ "headless" ∷ []

start_saved :
    (host : Host) (w : World Machine)
    → w.this.state ≡ "saved"
    → start [] host w ≡ script (startvm w.this.name ∷ []) host w
start_saved host w h =
    start-plan host w ∙ ap (λ k. script (plan_start k w.this.name) host w) (ap (λ s. kind_of s) h)

-- after the first `startvm`
start_again :
    (fuel : ℕ) (host : Host) (w : World Machine)
    → w.this.state ≡ "saved"
    → (stop fuel >>= start_after) host w
      ≡ (script (startvm w.this.name ∷ []) >>= λ t. pure (some t)) host w
unfolding stop start_after is_down
start_again fuel host w h =
    let is_saved : (w.this.state == "saved") ≡ true = ap (λ s. s == "saved") h in
    let on : (w.this.state == "poweroff") ≡ false = ap (λ s. s == "poweroff") h in
    let kept : (w.this.state == "aborted") ≡ false = ap (λ s. s == "aborted") h in
    rw (is_saved, kept, on) (ap (λ r. proceed r (λ t. pure (some t)) host) (start_saved host w h))

then_again :
    (fuel : ℕ) (host : Host) (w : World Machine) (r : Outcome (Unit {0}))
    → w.this.state ≡ "saved"
    → proceed (r, w) (λ _. stop fuel >>= start_after) host
      ≡ proceed
          (proceed (r, w) (λ _. script (startvm w.this.name ∷ [])) host)
          (λ t. pure (some t))
          host
then_again fuel host w (ok t) h = start_again fuel host w h
then_again fuel host w (err e) h = refl
then_again fuel host w (panic p) h = refl

-- `Restart` of a saved machine starts it and, as the state `m` has is the one from before, does not
-- stop it: it runs `startvm` a second time.
pub restart_saved :
    (fuel : ℕ) (host : Host) (w : World Machine)
    → w.this.state ≡ "saved"
    → restart fuel host w
      ≡ (script (
              ("startvm" ∷ w.this.name ∷ "--type" ∷ "headless" ∷ [])
              ∷ ("startvm" ∷ w.this.name ∷ "--type" ∷ "headless" ∷ [])
              ∷ [])
            >>= λ t. pure (some t))
          host w
unfolding restart resume_if script
restart_saved fuel host w h =
    let name = w.this.name in
    let first = run-outcome_of (startvm name) host w in
    let is_saved : (w.this.state == "saved") ≡ true = ap (λ s. s == "saved") h in
    let awake : (w.this.state == "paused") ≡ false = ap (λ s. s == "paused") h in
    rw (awake, is_saved)
      (ap (λ r. proceed r (λ _. stop fuel >>= start_after) host)
          (start_saved host w h ∙ sym (script_one (startvm name) host w) ∙ first)
        ∙ then_again fuel host (ran host (startvm name) w)
            (outcome_of (failure_of host (startvm name) w)) h
        ∙ ap
            (λ r.
              proceed (proceed r (λ _. script (startvm name ∷ [])) host) (λ t. pure (some t)) host)
            (sym first))

abbrev resume : String → List String
resume name = "controlvm" ∷ name ∷ "resume" ∷ []

start_paused :
    (host : Host) (w : World Machine)
    → w.this.state ≡ "paused"
    → start [] host w ≡ run (resume w.this.name) host w
start_paused host w h =
    start-plan host w
    ∙ ap (λ k. script (plan_start k w.this.name) host w) (ap (λ s. kind_of s) h)
    ∙ sym (script_one (resume w.this.name) host w)

-- after the first `resume`
stop_paused :
    (fuel : ℕ) (host : Host) (w : World Machine) (r : Outcome (Unit {0}))
    → w.this.state ≡ "paused"
    → proceed (r, w) (λ _. stop fuel >>= start_after) host
      ≡ proceed (r, w) (λ _. (run (resume w.this.name) >> stop_loop fuel) >>= start_after) host
unfolding stop is_down resume_if
stop_paused fuel host w (ok t) h =
    let halted : (w.this.state == "paused") ≡ true = ap (λ s. s == "paused") h in
    let on : (w.this.state == "poweroff") ≡ false = ap (λ s. s == "poweroff") h in
    let kept : (w.this.state == "aborted") ≡ false = ap (λ s. s == "aborted") h in
    let here : (w.this.state == "saved") ≡ false = ap (λ s. s == "saved") h in
    rw (halted, on, kept, here)
      (ap (λ p. proceed (proceed p (λ _. stop_loop fuel) host) start_after host)
        (start_paused host w h))
stop_paused fuel host w (err e) h = refl
stop_paused fuel host w (panic p) h = refl

-- `Restart` of a paused machine resumes it and, as `m` still has the state from before, `Stop`
-- resumes it a second time.
pub restart_paused :
    (fuel : ℕ) (host : Host) (w : World Machine)
    → w.this.state ≡ "paused"
    → restart fuel host w
      ≡ (run (resume w.this.name) >> ((run (resume w.this.name) >> stop_loop fuel) >>= start_after))
          host w
unfolding restart resume_if
restart_paused fuel host w h =
    let halted : (w.this.state == "paused") ≡ true = ap (λ s. s == "paused") h in
    let first = run-outcome_of (resume w.this.name) host w in
    rw halted (
      ap (λ r. proceed r (λ _. stop fuel >>= start_after) host) (start_paused host w h ∙ first)
      ∙ stop_paused fuel host (ran host (resume w.this.name) w) _ h
      ∙ ap (λ r. proceed r (λ _. (run (resume w.this.name) >> stop_loop fuel) >>= start_after) host)
          (sym first))
