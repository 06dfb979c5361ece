-- ===== src/Vbcmd/Effects.antt =====
-- What running a command does: its outcome, and the log.
use mathlib.Core.Path.{subst}
use go_virtualbox.Prelude.{String, Option, none, some, List, [], ◌∷◌, ◌++◌, ◌≡◌, refl, sym, ◌∙◌, ap}
use go_virtualbox.Go.Outcome.{
  Outcome, ok, err, panic, Failure, exec_failed, err_not_found, exec_error, exit_error,
}
use go_virtualbox.Vbcmd.{
  Exec, proceed, ◌>>◌, Host, World, Invocation, prepare, pure, run, error_of, error_of_failure,
  check, run_vbox_manage_cmd,
}

-- the invocation of the command that `Manage()` returns
abbrev pub invocation : Host → List String → Invocation
invocation host args = prepare host.os host.manage args

-- the world after the command
abbrev pub ran : {S : Type 0} → Host → List String → World S → World S
ran host args w = record w { log = w.log ++ invocation host args ∷ [] }

-- what became of the command
abbrev pub failure_of : {S : Type 0} → Host → List String → World S → Option Failure
failure_of host args w = (host.reply w.log (invocation host args)).failure

abbrev pub outcome_of : Option Failure → Outcome (Unit {0})
outcome_of none = ok tt
outcome_of (some f) = err (exec_failed f)

pub checked :
    {S : Type 0} (o : Option Failure) (host : Host) (w : World S)
    → check (error_of o) tt host w ≡ (outcome_of o, w)
unfolding error_of error_of_failure
checked none host w = refl
checked (some err_not_found) host w = refl
checked (some (exec_error name inner)) host w = refl
checked (some (exit_error message)) host w = refl

-- `run` runs the command once, and its error is that of the command: it succeeds when the command
-- does, and no failure, not even that of a program that is not there, is `ErrCommandNotFound`.
pub run-outcome_of :
    {S : Type 0} (args : List String) (host : Host) (w : World S)
    → run args host w ≡ (outcome_of (failure_of host args w), ran host args w)
unfolding run
run-outcome_of args host w = checked (failure_of host args w) host (ran host args w)

-- the commands one after the other, up to the first that fails
unfoldable pub script : {S : Type 0} → List (List String) → Exec S (Unit {0})
unfolding run
script [] = pure tt
script (args ∷ rest) = run args >> script rest

-- The commands run one after the other, from a world on: one that succeeds is followed by the next,
-- and one that fails ends it with its error, so that none of the others runs. No command changes the
-- object. The last two say how it ends.
pub data Did {S : Type 0} (host : Host)
    : List (List String) → World S → Outcome (Unit {0}) → World S → Type 0 where
  all_done : {w : World S} → Did host [] w (ok tt) w
  fails :
      {args : List String} {rest : List (List String)} {f : Failure} {w : World S}
      → failure_of host args w ≡ some f
      → Did host (args ∷ rest) w (err (exec_failed f)) (ran host args w)
  goes_on :
      {args : List String} {rest : List (List String)} {w v : World S} {o : Outcome (Unit {0})}
      → failure_of host args w ≡ none
      → Did host rest (ran host args w) o v
      → Did host (args ∷ rest) w o v

abbrev Runs :
    {S : Type 0} → Host → List (List String) → World S → Outcome (Unit {0}) × World S → Type 0
Runs host commands w r = Did host commands w r.0 r.1

script_step :
    {S : Type 0} (args : List String) (rest : List (List String)) (host : Host) (w : World S)
    (o : Option Failure)
    → failure_of host args w ≡ o
    → ((v : World S) → Runs host rest v (script rest host v))
    → Runs host (args ∷ rest) w (proceed (outcome_of o, ran host args w) (λ _. script rest) host)
script_step args rest host w none e later = goes_on e (later (ran host args w))
script_step args rest host w (some f) e later = fails e

pub script-Did :
    {S : Type 0} (commands : List (List String)) (host : Host) (w : World S)
    → let (result, after) = script commands host w in Did host commands w result after
unfolding script
script-Did [] host w = all_done
script-Did (args ∷ rest) host w =
    subst (λ r. Runs host (args ∷ rest) w (proceed r (λ _. script rest) host))
      (sym (run-outcome_of args host w))
      (script_step args rest host w (failure_of host args w) refl (script-Did rest host))

proceed_tt :
    {S : Type 0} (r : Outcome (Unit {0}) × World S) (host : Host)
    → proceed r (λ _. pure tt) host ≡ r
proceed_tt (ok tt, w) host = refl
proceed_tt (err e, w) host = refl
proceed_tt (panic p, w) host = refl

pub proceed_congr :
    {S A B : Type 0} (r : Outcome A × World S) (f g : A → Exec S B) (host : Host)
    → ((a : A) (w : World S) → f a host w ≡ g a host w)
    → proceed r f host ≡ proceed r g host
proceed_congr (ok a, w) f g host h = h a w
proceed_congr (err e, w) f g host h = refl
proceed_congr (panic p, w) f g host h = refl

pub script_one :
    {S : Type 0} (a : List String) (host : Host) (w : World S)
    → run a host w ≡ script (a ∷ []) host w
unfolding script
script_one a host w = sym (proceed_tt (run a host w) host)

pub script_two :
    {S : Type 0} (a b : List String) (host : Host) (w : World S)
    → (run a >> run b) host w ≡ script (a ∷ b ∷ []) host w
unfolding script
script_two a b host w =
    sym (proceed_congr (run a host w) _ _ host (λ _ v. proceed_tt (run b host v) host))

script_append_go :
    {S : Type 0} (r : Outcome (Unit {0}) × World S) (f g : Exec S (Unit {0})) (host : Host)
    → proceed (proceed r (λ _. f) host) (λ _. g) host ≡ proceed r (λ _. f >> g) host
script_append_go (ok a, w) f g host = refl
script_append_go (err e, w) f g host = refl
script_append_go (panic p, w) f g host = refl

-- A script followed by a command is the longer script.
pub script_append :
    {S : Type 0} (commands : List (List String)) (last : List String) (host : Host) (w : World S)
    → (script commands >> run last) host w ≡ script (commands ++ last ∷ []) host w
unfolding script
script_append [] last host w = script_one last host w
script_append (a ∷ rest) last host w =
    script_append_go (run a host w) (script rest) (run last) host
    ∙ proceed_congr (run a host w) _ _ host (λ _ v. script_append rest last host v)

-- Inversion of a successful step.
pub proceed-ok :
    {S A B : Type 0} (r : Outcome A × World S) (f : A → Exec S B) (host : Host) (b : B)
    (v : World S)
    → proceed r f host ≡ (ok b, v)
    → (a : A) × (w : World S) × (r ≡ (ok a, w)) × (f a host w ≡ (ok b, v))
proceed-ok (ok a, w) f host b v h = (a, w, refl, h)
proceed-ok (err e, w) f host b v h = absurd (cc (ap (λ p. p.0) h))
proceed-ok (panic p, w) f host b v h = absurd (cc (ap (λ p. p.0) h))

-- RunVBoxManageCmd runs the command once and returns with no error of its own; the result that is
-- named after the error output is what the command printed on its standard output, and the other way
-- round.
pub run_vbox_manage_cmd-swapped :
    {S : Type 0} (args : List String) (host : Host) (w : World S)
    → let reply = host.reply w.log (invocation host args) in
      run_vbox_manage_cmd args host w ≡ (
        ok (record {
          sdterr = reply.stdout;
          stdout = reply.stderr;
          error = error_of reply.failure;
        }),
        ran host args w,
      )
unfolding run_vbox_manage_cmd
run_vbox_manage_cmd-swapped args host w = refl
