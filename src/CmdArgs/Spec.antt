-- ===== src/CmdArgs/Spec.antt =====
-- What `Args` promises: the key order of first occurrences, and the last argument for each key.
use mathlib.Core.List.{flat_map}
use go_virtualbox.Prelude.{
  String, Bool, true, false, not, Option, none, some, List, [], ◌∷◌, ◌≡◌, if◌then◌else◌, ◌==◌, keep,
  elem,
}
use go_virtualbox.CmdArgs.{CmdArg, arg_strs, arg_at}

abbrev pub last_arg : String → List CmdArg → Option CmdArg
last_arg key [] = none
last_arg key (a ∷ rest) = elim (last_arg key rest) [
  | some b ↦ some b
  | none ↦ if a.k == key then some a else none
]

abbrev pub without : String → List String → List String
without key = keep (λ j. not (key == j))

abbrev pub first_keys : List CmdArg → List String
first_keys [] = []
first_keys (a ∷ rest) = a.k ∷ without a.k (first_keys rest)

abbrev pub has_key : String → List CmdArg → Bool
has_key key [] = false
has_key key (a ∷ rest) = if a.k == key then true else has_key key rest

-- No text stands twice.
abbrev pub Distinct : List String → Type 0
Distinct [] = Unit
Distinct (j ∷ js) = (elem j js ≡ false) × Distinct js

-- The command line for a list of arguments.
unfoldable pub command_line : List CmdArg → List String
command_line xs = flat_map (λ key. arg_strs (arg_at (last_arg key xs))) (first_keys xs)
