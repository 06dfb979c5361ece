-- ===== src/Vbmgt.antt =====
-- vbmgt.go: the search for the program that `Manage()` runs. The operating system is a parameter.
pub mod Sudoer
use go_virtualbox.Prelude.{
  String, Bool, true, false, Option, none, some, List, [], ◌∷◌, ◌==◌, if◌then◌else◌, append,
}
use go_virtualbox.Go.Outcome.{Outcome, ok, err, panic, ◌>>=◌, no_program, no_user, no_group}
use go_virtualbox.Vbcmd.{Command}

-- the error of os.Stat: none, os.IsNotExist, or another one
pub data StatError : Type 0 where
  no_error not_exist other_error : StatError

-- exec.LookPath: a path, a path with exec.ErrDot, or another error
pub data LookPath : Type 0 where
  found_at found_dot : String → LookPath
  not_found : LookPath

-- What the search asks the system. `none` is an error.
pub record System : Type 0 where
  pub os : String
  pub getenv : String → String
  pub join : List String → String
  pub stat : String → StatError
  pub look_path : String → LookPath
  pub abs : String → Option String
  pub group_ids : Option (Option (List String))  -- none: no current user
  pub group_name : String → Option String

absolute : String → Option String → Outcome String
absolute name none = err (no_program name)
absolute name (some path) = ok path

program_of : System → String → LookPath → Outcome String
unfolding absolute
program_of sys name (found_at path) = ok path
program_of sys name (found_dot path) = absolute name (sys.abs path)
program_of sys name not_found = err (no_program name)

unfoldable pub lookup_by_exec_look_path : System → String → Outcome String
unfolding program_of
lookup_by_exec_look_path sys name = program_of sys name (sys.look_path name)

-- the default directory on Windows
installed : System → String → String → StatError → Outcome String
unfolding lookup_by_exec_look_path
installed sys name path no_error = ok path
installed sys name path other_error = err (no_program name)
installed sys name path not_exist = lookup_by_exec_look_path sys name

unfoldable pub lookup_vbox_program : System → String → Outcome String
unfolding lookup_by_exec_look_path installed
lookup_vbox_program sys name =
    let exe = append name ".exe" in
    let path = sys.join ("C:\\" ∷ "Program Files" ∷ "Oracle" ∷ "VirtualBox" ∷ exe ∷ []) in
    let given = sys.getenv "VBOX_INSTALL_PATH" in
    if sys.os == "windows"
    then if given == ""
      then installed sys name path (sys.stat path)
      else ok (sys.join (given ∷ exe ∷ []))
    else lookup_by_exec_look_path sys name

group_is : String → Option String → Outcome Bool
group_is id none = err (no_group id)
group_is id (some name) = ok (name == "sudo")

-- the loop over the groups
unfoldable pub group_loop : System → List String → Outcome Bool
unfolding group_is
group_loop sys [] = ok false
group_loop sys (id ∷ ids) = do
  is_sudo ← group_is id (sys.group_name id)
  (if is_sudo then ok true else group_loop sys ids)

groups_of : System → Option (List String) → Outcome Bool
unfolding group_loop
groups_of sys none = err no_user
groups_of sys (some ids) = group_loop sys ids

user_of : System → Option (Option (List String)) → Outcome Bool
unfolding groups_of
user_of sys none = err no_user
user_of sys (some ids) = if sys.os == "linux" then groups_of sys ids else ok false

unfoldable pub is_sudoer : System → Outcome Bool
unfolding user_of
is_sudoer sys = user_of sys sys.group_ids

-- sudoer, err := isSudoer(), where an error is only logged
sudoer_of : Outcome Bool → Bool
sudoer_of (ok b) = b
sudoer_of (err e) = false
sudoer_of (panic p) = false

choose : Bool → Outcome String → Outcome String → Command
choose sudoer (ok path) control = record {
  program = path;
  sudoer = sudoer;
  sudo = false;
  guest = false;
}
choose sudoer failed (ok path) = record {
  program = path;
  sudoer = sudoer;
  sudo = false;
  guest = true;
}
choose sudoer failed failed' = record {
  program = "false";
  sudoer = false;
  sudo = false;
  guest = false;
}

-- the first call of `Manage`, when `manage` is nil
unfoldable pub new_manage : System → Command
unfolding is_sudoer sudoer_of lookup_vbox_program choose
new_manage sys =
    choose (sudoer_of (is_sudoer sys)) (lookup_vbox_program sys "VBoxManage")
      (lookup_vbox_program sys "VBoxControl")
