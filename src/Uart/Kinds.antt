-- ===== src/Uart/Kinds.antt =====
-- uart.go: `UARTType` and `UARTMode`. A type or a mode is any text, as in the source.
use go_virtualbox.Prelude.{
  String, Bool, List, [], ◌∷◌, ◌==◌, ◌||◌, if◌then◌else◌, Option, none, some,
}
use go_virtualbox.Go.Outcome.{bad_uart_mode, bad_uart_type, Error}

abbrev pub UartType : Type 0
UartType = String

abbrev pub uartt_16450 : UartType
uartt_16450 = "16450"

abbrev pub uartt_16550a : UartType
uartt_16550a = "16550A"

abbrev pub uartt_16750 : UartType
uartt_16750 = "16750"

abbrev pub uartt_default : UartType
uartt_default = uartt_16550a

unfoldable pub uart_type_all_supported : List UartType
uart_type_all_supported = uartt_16450 ∷ uartt_16550a ∷ uartt_16750 ∷ []

unfoldable pub is_supported_uart_type : UartType → Bool
is_supported_uart_type t = t == uartt_16450 || (t == uartt_16550a || t == uartt_16750)

-- The text is returned as a type also where there is an error.
unfoldable pub uart_type_from_string_if_supported : String → UartType × Option Error
unfolding is_supported_uart_type
uart_type_from_string_if_supported s =
    (s, if is_supported_uart_type s then none else some (bad_uart_type s))

abbrev pub UartMode : Type 0
UartMode = String

abbrev pub mode_server : UartMode
mode_server = "server"

abbrev pub mode_client : UartMode
mode_client = "client"

abbrev pub mode_tcp_server : UartMode
mode_tcp_server = "tcpserver"

abbrev pub mode_tcp_client : UartMode
mode_tcp_client = "tcpclient"

abbrev pub mode_file : UartMode
mode_file = "file"

abbrev pub mode_disconnected : UartMode
mode_disconnected = "disconnected"

abbrev pub mode_host_device : UartMode
mode_host_device = "hostdevice"

unfoldable pub uart_mode_all_supported : List UartMode
uart_mode_all_supported =
    mode_server ∷ mode_client ∷ mode_tcp_client ∷ mode_tcp_server ∷ mode_file ∷ mode_disconnected
    ∷ []

unfoldable pub uart_mode_from_string_if_supported : String → UartMode × Option Error
uart_mode_from_string_if_supported s =
    if s == "server"
    then (mode_server, none)
    else if s == "client"
    then (mode_client, none)
    else if s == "tcpserver"
    then (mode_tcp_server, none)
    else if s == "tcpclient"
    then (mode_tcp_client, none)
    else if s == "file"
    then (mode_file, none)
    else if s == "disconnected"
    then (mode_disconnected, none)
    else if s == "hostdevice"
    then (mode_host_device, none)
    else ("", some (bad_uart_mode s))
