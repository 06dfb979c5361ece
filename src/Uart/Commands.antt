-- ===== src/Uart/Commands.antt =====
-- uart.go: the `modifyvm` parameters of the ports, as texts and as `CmdArg`s.
pub mod Agree
pub mod Words
use go_virtualbox.Prelude.{
  ℕ, String, Bool, true, false, Option, none, some, List, [], ◌∷◌, ◌++◌, ◌==◌, if◌then◌else◌,
  append,
}
use go_virtualbox.Go.Outcome.{Outcome, ok, ◌>>=◌, ◌>>◌}
use go_virtualbox.Go.Strconv.{decimal, hex4}
use go_virtualbox.Go.Strings.{split}
use go_virtualbox.CmdArgs.{CmdArg}
use go_virtualbox.Uart.Key.{to_rank}
use go_virtualbox.Uart.Kinds.{mode_disconnected, mode_host_device}
use go_virtualbox.Uart.Device.{Uart, Uarts, is_off}

validate : Uart → Outcome (Unit {0})
validate uart = ok tt

-- the name and the value of one parameter
abbrev pub Parameter : Type 0
Parameter = String × String

-- fmt.Sprintf(prefix + "%d", uart.Key.ToRank())
abbrev pub ranked : String → Uart → Outcome String
ranked prefix uart = do rank ← to_rank uart.key; ok (append prefix (decimal rank))

unfoldable pub command_parameter_uart_n : Uart → Outcome Parameter
command_parameter_uart_n uart = do
  name ← ranked "--uart" uart
  ok (
    name,
    if is_off uart
        then "off"
        else append "0x"
            (append (hex4 uart.com_config.port) (append " " (decimal uart.com_config.irq))),
  )

-- the `switch` of the mode of a port that is on; `hostdevice` has a space behind the rank
mode_parameter : String → Uart → Parameter
mode_parameter name uart =
    if uart.mode == mode_disconnected
    then (name, mode_disconnected)
    else if uart.mode == mode_host_device
    then (append name " ", uart.mode_data)
    else (name, append uart.mode (append " " uart.mode_data))

unfoldable pub command_parameter_uart_mode_n : Uart → Outcome Parameter
unfolding mode_parameter
command_parameter_uart_mode_n uart =
    if is_off uart
    then ok ("", "")
    else do name ← ranked "--uartmode" uart; ok (mode_parameter name uart)

unfoldable pub command_parameter_uart_type_n : Uart → Outcome Parameter
command_parameter_uart_type_n uart =
    if is_off uart
    then ok ("", "")
    else do name ← ranked "--uarttype" uart; ok (name, uart.uart_type)

abbrev pub command_funcs : List (Uart → Outcome Parameter)
command_funcs =
    command_parameter_uart_n ∷ command_parameter_uart_mode_n ∷ command_parameter_uart_type_n ∷ []

-- The loop over the functions; `add` is what a parameter with a name adds.
unfoldable pub command_loop {ℓ} :
    {A : Type ℓ}
    → (String → String → List A)
    → Uart
    → List (Uart → Outcome Parameter)
    → List A
    → Outcome (List A)
command_loop add uart [] out = ok out
command_loop add uart (f ∷ fs) out = do
  (name, value) ← f uart
  command_loop add uart fs (if name == "" then out else out ++ add name value)

abbrev pub words_of : String → String → List String
words_of name value = name ∷ split b' ' value

unfoldable pub command_parameters : Uart → Outcome (List String)
unfolding validate command_loop
command_parameters uart = do validate uart; command_loop words_of uart command_funcs []

unfoldable pub to_cmd_args_parts_uart : String → String → List String
to_cmd_args_parts_uart key value = key ∷ split b' ' value

unfoldable pub uart_cmd_arg : String → String → CmdArg
uart_cmd_arg name value = record {
  k = name;
  v = some value;
  to_cmd_arg_parts = some to_cmd_args_parts_uart;
  del = false;
}

unfoldable pub cmd_args : Uart → Outcome (List CmdArg)
unfolding validate command_loop
cmd_args uart = do
  validate uart
  command_loop (λ name value. uart_cmd_arg name value ∷ []) uart command_funcs []

-- the loop over the ports
unfoldable pub each_uart {ℓ} :
    {A : Type ℓ} → (Uart → Outcome (List A)) → Uarts → List A → Outcome (List A)
each_uart f [] out = ok out
each_uart f (uart ∷ uarts) out = do params ← f uart; each_uart f uarts (out ++ params)

unfoldable pub modify_vm_command_parameters : Uarts → Outcome (List String)
unfolding each_uart
modify_vm_command_parameters uarts = each_uart command_parameters uarts []

unfoldable pub modify_vm_cmd_args : Uarts → Outcome (List CmdArg)
unfolding each_uart
modify_vm_cmd_args uarts = each_uart cmd_args uarts []
