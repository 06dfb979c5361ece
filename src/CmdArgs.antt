-- ===== src/CmdArgs.antt =====
-- cmd_arg.go: the arguments of a command, with overrides. `*CmdArgs` methods return the new record.
pub mod Spec
pub mod Refine
pub mod Override
use go_virtualbox.Prelude.{
  ℕ, String, Bool, true, false, Option, none, some, List, [], ◌∷◌, ◌++◌, if◌then◌else◌, Dict,
  lookup, insert,
}

-- A nil `V` is `none`, and a nil `ToCmdArgParts` too.
pub record CmdArg : Type 0 where
  pub k : String
  pub v : Option String
  pub to_cmd_arg_parts : Option (String → String → List String)
  pub del : Bool

pub record CmdArgs : Type 0 where
  pub args : List CmdArg
  pub overrides : List CmdArg

-- CmdArg{} and CmdArgs{}
abbrev pub zero_cmd_arg : CmdArg
zero_cmd_arg = record { k = ""; v = none; to_cmd_arg_parts = none; del = false }

abbrev pub zero_cmd_args : CmdArgs
zero_cmd_args = record { args = []; overrides = [] }

unfoldable pub new_cmd_arg_no_value : String → CmdArg
new_cmd_arg_no_value key = record zero_cmd_arg { k = key }

unfoldable pub new_cmd_arg : String → String → CmdArg
new_cmd_arg key value = record zero_cmd_arg { k = key; v = some value }

unfoldable pub new_cmd_arg_deleted : String → CmdArg
new_cmd_arg_deleted key = record zero_cmd_arg { k = key; del = true }

unfoldable pub append_no_value : String → CmdArgs → CmdArgs
unfolding new_cmd_arg_no_value
append_no_value key c = record c { args = c.args ++ new_cmd_arg_no_value key ∷ [] }

unfoldable pub append_arg : String → String → CmdArgs → CmdArgs
unfolding new_cmd_arg
append_arg key value c = record c { args = c.args ++ new_cmd_arg key value ∷ [] }

-- The early return at no argument leaves the record as it is.
unfoldable pub append_cmd_args : List CmdArg → CmdArgs → CmdArgs
append_cmd_args [] c = c
append_cmd_args (a ∷ rest) c = record c { args = c.args ++ a ∷ rest }

unfoldable pub append_override : List CmdArg → CmdArgs → CmdArgs
append_override [] c = c
append_override (a ∷ rest) c = record c { overrides = c.overrides ++ a ∷ rest }

abbrev pub contains : String → Dict CmdArg → Bool
contains key m = elim (lookup key m) [ none ↦ false | some _ ↦ true ]

-- The inner loop of `Args` over one slice: the map and the order of its keys.
unfoldable pub collect : List CmdArg → Dict CmdArg → List String → Dict CmdArg × List String
collect [] m order = (m, order)
collect (arg ∷ rest) m order =
    collect rest (insert arg.k arg m) (if contains arg.k m then order else order ++ arg.k ∷ [])

-- what one argument adds to the command line
unfoldable pub arg_strs : CmdArg → List String
arg_strs arg = if arg.del then [] else elim arg.v [
  | none ↦ arg.k ∷ []
  | some value ↦ elim arg.to_cmd_arg_parts [
    | none ↦ arg.k ∷ value ∷ []
    | some parts ↦ parts arg.k value
  ]
]

-- m[k], which is the zero value if the key is missing
abbrev pub arg_at : Option CmdArg → CmdArg
arg_at none = zero_cmd_arg
arg_at (some arg) = arg

-- the second loop of `Args`
unfoldable pub render : Dict CmdArg → List String → List String → List String
render m [] out = out
render m (key ∷ order) out = render m order (out ++ arg_strs (arg_at (lookup key m)))

unfoldable pub args : CmdArgs → List String
unfolding collect render
args c =
    let (m, order) = collect c.args [] [] in
    let (m', order') = collect c.overrides m order in render m' order' []
