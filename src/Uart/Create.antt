-- ===== src/Uart/Create.antt =====
-- uart.go: `NewUARTsFromUARTMap` and `NewUART`. Of the package go-multierror they call Append on a new
-- collection and ErrorOrNil at the end: the model lists the errors that Append is called with, and
-- the parameter `error_or_nil` says what the package makes of them.
pub mod Slots
pub mod Valid
use go_virtualbox.Prelude.{
  ℕ, zero, suc, ◌-◌, String, Bool, true, false, not, ◌&&◌, ◌||◌, Option, none, some, List, [], ◌∷◌,
  ◌++◌, ◌==◌, if◌then◌else◌, Dict, set, All, ◌≡◌,
}
use mathlib.Core.Option.{map}
use go_virtualbox.Go.Files.{Stat, FileType}
use go_virtualbox.Go.Outcome.{
  Outcome, ok, err, panic, ◌>>=◌, Error, bad_uart_key, bad_port_irq, bad_number,
}
use go_virtualbox.Go.Scan.{sscanf_0x}
use go_virtualbox.Go.Strconv.{NumError, parse_uint}
use go_virtualbox.Uart.Key.{is_supported_key, to_rank}
use go_virtualbox.Uart.Kinds.{
  UartMode, mode_host_device, uart_mode_from_string_if_supported,
  uart_type_from_string_if_supported,
}
use go_virtualbox.Uart.Com.{BasicSerialComConfig}
use go_virtualbox.Uart.Device.{Uart, Uarts, new_uarts_all_off, uart_off_from_key}

-- the errors that Append was called with, nil ones too
abbrev pub Appended : Type 0
Appended = List (Option Error)

-- ErrorOrNil after these calls
abbrev pub ErrorOrNil : Type 0 → Type 0
ErrorOrNil E = Appended → Option E

-- What the package documents: the result is nil when no error but nil ones was appended.
pub record IsErrorOrNil {E : Type 0} (error_or_nil : ErrorOrNil E) : Type 0 where
  pub nil_only : (errs : Appended) → error_or_nil errs ≡ none → All (λ e. e ≡ none) errs
  pub nil_again : (errs : Appended) → All (λ e. e ≡ none) errs → error_or_nil errs ≡ none

-- an error of the function's own, or those that were collected
pub data UartError (E : Type 0) : Type 0 where
  own : Error → UartError E
  collected : E → UartError E

-- multierror.Append(errs, err)
abbrev pub append_error : Appended → Option Error → Appended
append_error errs e = errs ++ e ∷ []

-- The loop over the map, in the order in which it yields the entries.
unfoldable pub fill : Dict Uart → Uarts → Appended → Outcome (Uarts × Appended)
fill [] uarts errs = ok (uarts, errs)
fill ((key, uart) ∷ entries) uarts errs = elim (is_supported_key key) [
  | false ↦ fill entries uarts (append_error errs (some (bad_uart_key key)))
  | true ↦ to_rank key >>= λ rank. fill entries (set uarts (rank - 1) uart) errs
]

unfoldable pub new_uarts_from_uart_map :
    {E : Type 0} → ErrorOrNil E → Dict Uart → Outcome (Uarts × Option E)
unfolding fill new_uarts_all_off
new_uarts_from_uart_map error_or_nil uart_map =
    fill uart_map new_uarts_all_off [] >>= λ (uarts, errs). ok (uarts, error_or_nil errs)

-- the mode, its data and the error before and after the look at the file that the mode names
host_device_mode :
    String
    → UartMode × (String × Option Error)
    → Option FileType
    → UartMode × (String × Option Error)
host_device_mode mode_str (mode, (mode_data, e)) none = (mode, (mode_data, e))
host_device_mode mode_str (mode, (mode_data, e)) (some t) =
    if t.device && t.char_device
    then (mode_host_device, (mode_str, none))
    else (mode, (mode_data, e))

mode_or_device :
    Stat → String → String → UartMode × Option Error → UartMode × (String × Option Error)
unfolding host_device_mode
mode_or_device stat mode_str mode_data (mode, none) = (mode, (mode_data, none))
mode_or_device stat mode_str mode_data (mode, some e) =
    host_device_mode mode_str (mode, (mode_data, some e)) (stat mode_str)

unfoldable pub mode_of_strings : Stat → String → String → UartMode × (String × Option Error)
unfolding mode_or_device
mode_of_strings stat mode_str mode_data =
    mode_or_device stat mode_str mode_data (uart_mode_from_string_if_supported mode_str)

-- the port and the error of its scan; the variable keeps its zero on a failure
port_of_scan : String → Option ℕ → ℕ × Option Error
port_of_scan s none = (0, some (bad_number s))
port_of_scan s (some n) = (n, none)

irq_of_parse : String → ℕ × Option NumError → ℕ × Option Error
irq_of_parse s (n, none) = (n, none)
irq_of_parse s (n, some e) = (n, some (bad_number s))

unfoldable pub com_of_strings : String → String → Appended → BasicSerialComConfig × Appended
unfolding port_of_scan irq_of_parse
com_of_strings port_str irq_str errs =
    if not (port_str == "") && not (irq_str == "")
    then (let (port, e) = port_of_scan port_str (sscanf_0x port_str) in
        let (irq, e') = irq_of_parse irq_str (parse_uint irq_str 10 64) in
        (record { port = port; irq = irq }, append_error (append_error errs e) e'))
    else (
      record { port = 0; irq = 0 },
      if (not (port_str == "") && irq_str == "") || (port_str == "" && not (irq_str == ""))
          then append_error errs (some (bad_port_irq port_str))
          else errs,
    )

-- The port is returned beside the errors, but for an unsupported key.
unfoldable pub new_uart :
    {E : Type 0}
    → ErrorOrNil E
    → Stat
    → String
    → String
    → String
    → String
    → String
    → String
    → Option Uart × Option (UartError E)
unfolding mode_of_strings com_of_strings
new_uart error_or_nil stat key_str type_str port_str irq_str mode_str mode_data_str =
    if not (is_supported_key key_str)
    then (none, some (own (bad_uart_key key_str)))
    else (let (mode, (mode_data, e)) = mode_of_strings stat mode_str mode_data_str in
        let (config, errs) = com_of_strings port_str irq_str (append_error [] e) in
        let (uart_type, e') = uart_type_from_string_if_supported type_str in
        (
          some (record {
            com_config = config;
            uart_type = uart_type;
            mode = mode;
            mode_data = mode_data;
            key = key_str;
          }),
          map collected (error_or_nil (append_error errs e')),
        ))
