-- ===== src/Vbcmd.antt =====
-- vbcmd.go: the commands that the library runs. The host runs a program: what it replies depends
-- on all that ran before. `S` is the object that a method changes.
pub mod Effects
pub mod Logs
use go_virtualbox.Prelude.{
  String, Bool, true, false, not, ◌&&◌, Option, none, some, List, [], ◌∷◌, ◌++◌, ◌==◌,
  if◌then◌else◌,
}
use go_virtualbox.Go.Files.{Stat}
use go_virtualbox.Go.Outcome.{
  Outcome, ok, err, panic, Error, Failure, err_not_found, exec_error, exit_error, command_not_found,
  exec_failed,
}

pub record Command : Type 0 where
  pub program : String
  pub sudoer : Bool
  pub sudo : Bool
  pub guest : Bool

abbrev pub CommandOption : Type 0
CommandOption = Command → Command

-- the options change a copy of the command
unfoldable pub set_opts : Command → List CommandOption → Command
set_opts cmd [] = cmd
set_opts cmd (opt ∷ opts) = set_opts (opt cmd) opts

abbrev pub sudo : Bool → CommandOption
sudo b cmd = record cmd { sudo = b }

-- a program with its arguments
pub record Invocation : Type 0 where
  pub program : String
  pub argv : List String

pub record Reply : Type 0 where
  pub stdout : String
  pub stderr : String
  pub failure : Option Failure

-- The machine that the library runs on: runtime.GOOS, the command that `Manage()` returns, os.Stat,
-- filepath.Dir, and what a program that is run replies after those that ran before.
pub record Host : Type 0 where
  pub os : String
  pub manage : Command
  pub stat : Stat
  pub dir : String → String
  pub reply : List Invocation → Invocation → Reply

pub record World (S : Type 0) : Type 0 where
  pub log : List Invocation
  pub this : S

abbrev pub Exec : Type 0 → Type 0 → Type 0
Exec S A = Host → World S → Outcome A × World S

abbrev pub proceed :
    {S A B : Type 0} → Outcome A × World S → (A → Exec S B) → Host → Outcome B × World S
proceed (ok a, w) f host = f a host w
proceed (err e, w) f host = (err e, w)
proceed (panic p, w) f host = (panic p, w)

infixl 5 ◌>>=◌ ◌>>◌
abbrev pub ◌>>=◌ : {S A B : Type 0} → Exec S A → (A → Exec S B) → Exec S B
m >>= f = λ host w. proceed (m host w) f host

abbrev pub ◌>>◌ : {S B : Type 0} → Exec S (Unit {0}) → Exec S B → Exec S B
m >> k = m >>= λ _. k

abbrev pub lift : {S A : Type 0} → Outcome A → Exec S A
lift o host w = (o, w)

abbrev pub pure : {S A : Type 0} → A → Exec S A
pure a = lift (ok a)

abbrev pub fail : {S A : Type 0} → Error → Exec S A
fail e = lift (err e)

-- the object of the method
abbrev pub this : {S : Type 0} → Exec S S
this host w = (ok w.this, w)

-- *m = *mm
abbrev pub set_this : {S : Type 0} → S → Exec S (Unit {0})
set_this s host w = (ok tt, record w { this = s })

abbrev pub os_windows : String
os_windows = "windows"

unfoldable pub prepare : String → Command → List String → Invocation
prepare os cmd args =
    if cmd.sudoer && (cmd.sudo && not (os == os_windows))
    then record { program = "sudo"; argv = cmd.program ∷ args }
    else record { program = cmd.program; argv = args }

-- cmd.Run(): the program runs and its reply is there
abbrev pub execute : {S : Type 0} → Command → List String → Exec S Reply
execute cmd args host w =
    let inv = prepare host.os cmd args in
    (ok (host.reply w.log inv), record w { log = w.log ++ inv ∷ [] })

-- err.(*exec.Error)
unfoldable pub is_exec_error : Failure → Bool
is_exec_error (exec_error name inner) = true
is_exec_error err_not_found = false
is_exec_error (exit_error message) = false

-- == exec.ErrNotFound
unfoldable pub is_err_not_found : Failure → Bool
is_err_not_found err_not_found = true
is_err_not_found (exec_error name inner) = false
is_err_not_found (exit_error message) = false

-- the error that a failed command gives
unfoldable pub error_of_failure : Failure → Error
unfolding is_exec_error is_err_not_found
error_of_failure f =
    if is_exec_error f && is_err_not_found f then command_not_found else exec_failed f

unfoldable pub error_of : Option Failure → Option Error
unfolding error_of_failure
error_of none = none
error_of (some f) = some (error_of_failure f)

-- if err != nil { return err }
abbrev pub check : {S A : Type 0} → Option Error → A → Exec S A
check none a = pure a
check (some e) a = fail e

unfoldable pub run_with : {S : Type 0} → Command → List String → Exec S (Unit {0})
run_with cmd args = do reply ← execute cmd args; check (error_of reply.failure) tt

unfoldable pub run_out_with : {S : Type 0} → Command → List String → Exec S (String × Option Error)
run_out_with cmd args = do reply ← execute cmd args; pure (reply.stdout, error_of reply.failure)

unfoldable pub run_out_err_with :
    {S : Type 0} → Command → List String → Exec S (String × String × Option Error)
run_out_err_with cmd args = do
  reply ← execute cmd args
  pure (reply.stdout, reply.stderr, error_of reply.failure)

-- Manage()
unfoldable pub manage : {S : Type 0} → Exec S Command
manage host w = (ok host.manage, w)

-- Manage().run, Manage().runOut with the error returned, and Manage().runOutErr
unfoldable pub run : {S : Type 0} → List String → Exec S (Unit {0})
unfolding run_with manage
run args = do cmd ← manage; run_with cmd args

unfoldable pub run_out : {S : Type 0} → List String → Exec S String
unfolding run_out_with manage
run_out args = do cmd ← manage; (out, e) ← run_out_with cmd args; check e out

unfoldable pub run_out_err : {S : Type 0} → List String → Exec S (String × String × Option Error)
unfolding run_out_err_with manage
run_out_err args = do cmd ← manage; run_out_err_with cmd args

-- the methods that tell the fields
abbrev pub is_guest : Command → Bool
is_guest cmd = cmd.guest

abbrev pub path : Command → String
path cmd = cmd.program

-- the named results of RunVBoxManageCmd, in their order
pub record CmdResults : Type 0 where
  pub sdterr : String
  pub stdout : String
  pub error : Option Error

unfoldable pub run_vbox_manage_cmd : {S : Type 0} → List String → Exec S CmdResults
unfolding run_out_err
run_vbox_manage_cmd args = do
  (first, second, e) ← run_out_err args
  pure (record { sdterr = first; stdout = second; error = e })
