-- ===== src/Tests/Arguments.antt =====
-- cmd_arg.go at concrete arguments.
use mathlib.Core.List.{flat_map}
use go_virtualbox.Prelude.{false, none, some, [], ◌∷◌, ◌≡◌}
use go_virtualbox.CmdArgs.{CmdArg, CmdArgs, args, append_override, new_cmd_arg_deleted, arg_strs}
use go_virtualbox.CmdArgs.Spec.{command_line}
use go_virtualbox.CmdArgs.Refine.{args-command_line}
use go_virtualbox.CmdArgs.Override.{args-append_override, args-deleted, drop_keys}

abbrev headless : CmdArg
headless = record { k = "--type"; v = some "headless"; to_cmd_arg_parts = none; del = false }

abbrev gui : CmdArg
gui = record { k = "--type"; v = some "gui"; to_cmd_arg_parts = none; del = false }

abbrev memory : CmdArg
memory = record { k = "--memory"; v = some "1024"; to_cmd_arg_parts = none; del = false }

abbrev two_args : CmdArgs
two_args = record { args = headless ∷ memory ∷ []; overrides = gui ∷ [] }

args-command_line_example : args two_args ≡ "--type" ∷ "gui" ∷ "--memory" ∷ "1024" ∷ []
unfolding command_line arg_strs flat_map
args-command_line_example = args-command_line two_args

args-append_override_example :
    args (append_override (headless ∷ []) two_args)
    ≡ "--type" ∷ "headless" ∷ "--memory" ∷ "1024" ∷ []
unfolding arg_strs flat_map
args-append_override_example = args-append_override two_args headless

memory_deleted :
    args (append_override (new_cmd_arg_deleted "--memory" ∷ []) two_args)
    ≡ args (drop_keys "--memory" two_args)
memory_deleted = args-deleted "--memory" two_args
