-- ===== src/Uart/Commands/Agree.antt =====
-- The parameters as texts are those of the `CmdArg`s.
use mathlib.Core.List.{flat_map}
use go_virtualbox.Prelude.{
  String, Bool, true, false, List, [], ◌∷◌, ◌++◌, ◌==◌, if◌then◌else◌, ◌≡◌, refl, ◌∙◌, ap,
  append_assoc, append-nil,
}
use go_virtualbox.Go.Outcome.{Outcome, ok, err, panic, ◌>>=◌}
use go_virtualbox.CmdArgs.{CmdArg, arg_strs}
use go_virtualbox.Uart.Device.{Uart, Uarts}
use go_virtualbox.Uart.Commands.{
  Parameter, command_funcs, command_loop, words_of, command_parameters, uart_cmd_arg,
  to_cmd_args_parts_uart, cmd_args, each_uart, modify_vm_command_parameters, modify_vm_cmd_args,
}

-- the command line of a list of arguments with no override
abbrev pub strs : List CmdArg → List String
strs = flat_map arg_strs

strs-append : (xs ys : List CmdArg) → strs (xs ++ ys) ≡ strs xs ++ strs ys
unfolding flat_map
strs-append [] ys = refl
strs-append (x ∷ xs) ys = simp (strs-append xs ys, append_assoc)

abbrev pub map_ok {ℓ κ} : {A : Type ℓ} {B : Type κ} → (A → B) → Outcome A → Outcome B
map_ok f m = m >>= λ a. ok (f a)

strs-uart_cmd_arg :
    (name value : String) → strs (uart_cmd_arg name value ∷ []) ≡ words_of name value
unfolding flat_map arg_strs uart_cmd_arg to_cmd_args_parts_uart
strs-uart_cmd_arg name value = append-nil _

strs_grown :
    (b : Bool) (name value : String) (out : List CmdArg)
    → strs (if b then out else out ++ uart_cmd_arg name value ∷ [])
      ≡ (if b then strs out else strs out ++ words_of name value)
strs_grown true name value out = refl
strs_grown false name value out =
    strs-append out (uart_cmd_arg name value ∷ [])
    ∙ ap (λ ws. strs out ++ ws) (strs-uart_cmd_arg name value)

abbrev arg_loop : Uart → List (Uart → Outcome Parameter) → List CmdArg → Outcome (List CmdArg)
arg_loop = command_loop (λ name value. uart_cmd_arg name value ∷ [])

loop_step :
    (uart : Uart) (fs : List (Uart → Outcome Parameter)) (out : List CmdArg) (p : Outcome Parameter)
    → ((xs : List CmdArg)
        → map_ok strs (arg_loop uart fs xs) ≡ command_loop words_of uart fs (strs xs))
    → map_ok strs (
        p >>= λ (name, value).
        arg_loop uart fs (if name == "" then out else out ++ uart_cmd_arg name value ∷ []))
      ≡ (p >>= λ (name, value).
          command_loop words_of uart fs
            (if name == "" then strs out else strs out ++ words_of name value))
loop_step uart fs out (err e) ih = refl
loop_step uart fs out (panic e) ih = refl
loop_step uart fs out (ok (name, value)) ih =
    ih _ ∙ ap (command_loop words_of uart fs) (strs_grown (name == "") name value out)

loops_agree :
    (uart : Uart) (fs : List (Uart → Outcome Parameter)) (out : List CmdArg)
    → map_ok strs (arg_loop uart fs out) ≡ command_loop words_of uart fs (strs out)
unfolding command_loop
loops_agree uart [] out = refl
loops_agree uart (f ∷ fs) out = loop_step uart fs out (f uart) (loops_agree uart fs)

cmd_args_agree : (uart : Uart) → map_ok strs (cmd_args uart) ≡ command_parameters uart
unfolding cmd_args command_parameters flat_map
cmd_args_agree uart = loops_agree uart command_funcs []

each_step :
    (m : Outcome (List CmdArg)) (w : Outcome (List String)) (uarts : Uarts) (out : List CmdArg)
    → map_ok strs m ≡ w
    → ((xs : List CmdArg)
        → map_ok strs (each_uart cmd_args uarts xs) ≡ each_uart command_parameters uarts (strs xs))
    → map_ok strs (m >>= λ params. each_uart cmd_args uarts (out ++ params))
      ≡ (w >>= λ params. each_uart command_parameters uarts (strs out ++ params))
each_step (ok params) w uarts out e ih =
    rw (← e) (ih (out ++ params) ∙ ap (each_uart command_parameters uarts) (strs-append out params))
each_step (err x) w uarts out e ih = rw (← e)
each_step (panic x) w uarts out e ih = rw (← e)

each_agree :
    (uarts : Uarts) (out : List CmdArg)
    → map_ok strs (each_uart cmd_args uarts out) ≡ each_uart command_parameters uarts (strs out)
unfolding each_uart
each_agree [] out = refl
each_agree (uart ∷ uarts) out =
    each_step (cmd_args uart) (command_parameters uart) uarts out (cmd_args_agree uart)
      (each_agree uarts)

-- Whatever the ports are, the words of the arguments that `ModifyVMCmdArgs` returns, put one after the
-- other, are those that `ModifyVMCommandParameters` returns, with the same errors and panics. The
-- words are compared as the functions return them, before `Args` merges arguments with one key.
pub cmd_args-command_parameters :
    (uarts : Uarts) → map_ok strs (modify_vm_cmd_args uarts) ≡ modify_vm_command_parameters uarts
unfolding modify_vm_cmd_args modify_vm_command_parameters flat_map
cmd_args-command_parameters uarts = each_agree uarts []
