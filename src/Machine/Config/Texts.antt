-- ===== src/Machine/Config/Texts.antt =====
-- machine.go: port forwarding, and the extra data of a machine.
pub mod Shown
use go_virtualbox.Prelude.{ℕ, String, Option, none, some, List, [], ◌∷◌, if◌then◌else◌, append}
use go_virtualbox.Go.Strconv.{decimal}
use go_virtualbox.Go.Strings.Trim.{trim_space, has_prefix, trim_prefix}
use go_virtualbox.Vbcmd.{Exec, ◌>>=◌, pure, this, run, run_out}
use go_virtualbox.Machine.Kinds.{Machine}
use go_virtualbox.Forwarding.{PfRule, format}

unfoldable pub add_nat_pf : ℕ → String → PfRule → Exec Machine (Unit {0})
unfolding run decimal format
add_nat_pf n name rule = do
  m ← this
  run (
      "controlvm"
      ∷ m.name
      ∷ append "natpf" (decimal n)
      ∷ append name (append "," (format rule))
      ∷ [])

-- the value in what was printed, or nil
unfoldable pub extra_of : String → Option String
unfolding has_prefix trim_prefix
extra_of value =
    if has_prefix value "No value set" then none else some (trim_prefix value "Value: ")

unfoldable pub get_extra_data : String → Exec Machine (Option String)
unfolding run_out trim_space extra_of
get_extra_data key = do
  m ← this
  value ← run_out ("getextradata" ∷ m.name ∷ key ∷ [])
  pure (extra_of (trim_space value))
