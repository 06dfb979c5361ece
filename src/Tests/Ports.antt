-- ===== src/Tests/Ports.antt =====
-- uart.go at concrete ports.
use go_virtualbox.Prelude.{ℕ, String, Option, none, some, List, [], ◌∷◌, ◌≡◌, refl, arith, lookup}
use go_virtualbox.Go.Files.{Stat}
use go_virtualbox.Go.Strconv.{decimal, hex4}
use go_virtualbox.Go.Outcome.{ok, Error, bad_uart_key}
use go_virtualbox.Uart.Key.{
  uart1, uart2, uart3, uart4, to_rank, is_supported_key, uart_key_from_rank, RankOf, to_rank-RankOf,
  known_uart_keys,
}
use go_virtualbox.Uart.Com.{BasicSerialComConfig, com1, init_from_vm_info_value}
use go_virtualbox.Uart.Com.RoundTrip.{
  to_vm_info_value_uart_n, init_from_vm_info_value-to_vm_info_value,
}
use go_virtualbox.Uart.Device.{
  Uart, Uarts, uart_off_from_key, is_off, without_uart_having_state_off,
}
use go_virtualbox.Uart.Device.Filter.{without_off-ports_on}
use go_virtualbox.Uart.Commands.{
  command_parameters, modify_vm_cmd_args, modify_vm_command_parameters,
}
use go_virtualbox.Uart.Commands.Agree.{map_ok, strs, cmd_args-command_parameters}
use go_virtualbox.Uart.Commands.Words.{port_words, command_parameters-port_words}
use go_virtualbox.Uart.FromInfo.{PropMap, new_uarts}
use go_virtualbox.Uart.FromInfo.RoundTrip.{Says, with_data, off, on, new_uarts-Says}
use go_virtualbox.Uart.FromInfo.Faults.{new_uarts-keys, keys}
use go_virtualbox.Uart.Create.{Appended, ErrorOrNil, new_uarts_from_uart_map}
use go_virtualbox.Uart.Create.Slots.{new_uarts_from_uart_map-entry_or, entry_or, key_errors}

abbrev no_files : Stat
no_files path = none

-- the first port, with a server behind it
abbrev server_port : Uart
server_port = record {
  com_config = com1;
  uart_type = "16550A";
  mode = "server";
  mode_data = "/tmp/pipe";
  key = uart1;
}

abbrev one_on : Uarts
one_on =
    server_port ∷ uart_off_from_key uart2 ∷ uart_off_from_key uart3 ∷ uart_off_from_key uart4 ∷ []

abbrev one_on_info : PropMap
one_on_info =
    ("uart1", "0x03f8,4")
    ∷ ("uartmode1", "server,/tmp/pipe")
    ∷ ("uarttype1", "16550A")
    ∷ ("uart2", "off")
    ∷ ("uart3", "off")
    ∷ ("uart4", "off")
    ∷ []

third_rank : RankOf uart3
third_rank = to_rank-RankOf uart3

first_com_read : init_from_vm_info_value (to_vm_info_value_uart_n com1) ≡ ok com1
first_com_read = init_from_vm_info_value-to_vm_info_value com1 (omega arith) (omega arith)

two_ports_on : without_uart_having_state_off one_on ≡ server_port ∷ []
unfolding is_off
two_ports_on = without_off-ports_on one_on

cmd_args-command_parameters_example :
    map_ok strs (modify_vm_cmd_args one_on) ≡ modify_vm_command_parameters one_on
cmd_args-command_parameters_example = cmd_args-command_parameters one_on

server_words : command_parameters server_port ≡ ok (port_words 1 server_port)
unfolding to_rank
server_words = command_parameters-port_words server_port 1 refl

server-Says : Says one_on_info 1 server_port
unfolding lookup go_virtualbox.Uart.Kinds.is_supported_uart_type to_vm_info_value_uart_n hex4
    decimal go_virtualbox.Uart.FromInfo.is_data_mode
server-Says = on (omega arith) (omega arith) refl refl (with_data refl (omega arith) refl) refl

off-Says :
    (rank : ℕ) (key : String)
    → lookup key one_on_info ≡ some "off"
    → Says one_on_info rank (uart_off_from_key key)
off-Says rank key l = off refl l

off_2 : lookup uart2 one_on_info ≡ some "off"
unfolding lookup
off_2 = refl

off_3 : lookup uart3 one_on_info ≡ some "off"
unfolding lookup
off_3 = refl

off_4 : lookup uart4 one_on_info ≡ some "off"
unfolding lookup
off_4 = refl

new_uarts-Says_example : new_uarts no_files one_on_info ≡ ok one_on
new_uarts-Says_example =
    new_uarts-Says no_files one_on_info server_port (uart_off_from_key uart2)
      (uart_off_from_key uart3) (uart_off_from_key uart4) refl refl refl refl server-Says
      (off-Says 2 uart2 off_2) (off-Says 3 uart3 off_3) (off-Says 4 uart4 off_4)

one_on_read : new_uarts no_files one_on_info ≡ ok one_on
unfolding new_uarts uart_key_from_rank lookup init_from_vm_info_value go_virtualbox.Go.Strings.split
    go_virtualbox.Uart.Com.from_second go_virtualbox.Go.Strconv.parse_uint
    go_virtualbox.Uart.FromInfo.init_uart_mode_from_vm_info_map to_rank decimal
    go_virtualbox.Uart.FromInfo.init_uart_type_from_vm_info_map
    go_virtualbox.Uart.Kinds.is_supported_uart_type
one_on_read = refl

four_keys : keys one_on ≡ known_uart_keys
four_keys = new_uarts-keys no_files one_on_info one_on one_on_read

-- the errors that are not nil, and nil when there are none
abbrev errors_of : Appended → List Error
errors_of [] = []
errors_of (none ∷ errs) = errors_of errs
errors_of (some e ∷ errs) = e ∷ errors_of errs

abbrev or_nil : List Error → Option (List Error)
or_nil [] = none
or_nil (e ∷ errs) = some (e ∷ errs)

abbrev errors_or_nil : ErrorOrNil (List Error)
errors_or_nil errs = or_nil (errors_of errs)

new_uarts_from_uart_map-entry_or_example :
    new_uarts_from_uart_map errors_or_nil ((uart1, server_port) ∷ ("uart5", server_port) ∷ [])
    ≡ ok (one_on, some (bad_uart_key "uart5" ∷ []))
unfolding entry_or key_errors is_supported_key
new_uarts_from_uart_map-entry_or_example =
    new_uarts_from_uart_map-entry_or errors_or_nil
      ((uart1, server_port) ∷ ("uart5", server_port) ∷ [])
