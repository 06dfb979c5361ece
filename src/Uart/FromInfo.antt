-- ===== src/Uart/FromInfo.antt =====
-- uart.go: the ports from the properties that `showvminfo` prints. `os.Stat` is a parameter.
pub mod RoundTrip
pub mod Faults
pub mod Modes
pub mod Ports
use go_virtualbox.Prelude.{
  ℕ, String, Bool, true, false, not, ◌||◌, Option, none, some, List, [], ◌∷◌, ◌++◌, ◌==◌,
  if◌then◌else◌, append, Dict, lookup,
}
use go_virtualbox.Go.Files.{Stat, FileType, equals_char_device}
use go_virtualbox.Go.Outcome.{Outcome, ok, err, ◌>>=◌, bad_uart_mode, bad_uart_type}
use go_virtualbox.Go.Strconv.{decimal}
use go_virtualbox.Go.Strings.{split}
use go_virtualbox.Uart.Key.{to_rank, uart_key_from_rank}
use go_virtualbox.Uart.Com.{init_from_vm_info_value}
use go_virtualbox.Uart.Kinds.{
  mode_server, mode_client, mode_tcp_server, mode_tcp_client, mode_file, mode_disconnected,
  mode_host_device, is_supported_uart_type,
}
use go_virtualbox.Uart.Device.{Uart, Uarts, uart_off_from_key}

-- vmPropMap
abbrev pub PropMap : Type 0
PropMap = Dict String

-- the modes of the inner `switch`
unfoldable pub is_data_mode : String → Bool
is_data_mode mode =
    mode == mode_client
    || (mode == mode_disconnected
        || (mode == mode_file
            || (mode == mode_server || (mode == mode_tcp_client || mode == mode_tcp_server))))

-- fs.ModeCharDevice != ftype is an error
host_device : Uart → String → FileType → Outcome Uart
host_device uart value ftype =
    if not (equals_char_device ftype)
    then err (bad_uart_mode value)
    else ok (record uart { mode = mode_host_device; mode_data = value })

-- the result of os.Stat; a failure goes on to the last error of the function
unfoldable pub mode_of_stat : Uart → String → Option FileType → Outcome Uart
unfolding host_device
mode_of_stat uart path none = err (bad_uart_mode path)
mode_of_stat uart path (some ftype) = host_device uart path ftype

unfoldable pub mode_of_parts : Stat → Uart → String → List String → Outcome Uart
unfolding mode_of_stat is_data_mode
mode_of_parts stat uart value (mode ∷ mode_data ∷ []) =
    if is_data_mode mode
    then ok (record uart { mode = mode; mode_data = mode_data })
    else err (bad_uart_mode value)
mode_of_parts stat uart value (path ∷ []) = mode_of_stat uart path (stat path)
mode_of_parts stat uart value parts = err (bad_uart_mode value)

unfoldable pub mode_of_value : Stat → Uart → String → Outcome Uart
unfolding mode_of_parts
mode_of_value stat uart value =
    if value == mode_disconnected
    then ok (record uart { mode = mode_disconnected })
    else mode_of_parts stat uart value (split b',' value)

-- A missing property leaves the port as it is.
unfoldable pub mode_of_entry : Stat → Uart → Option String → Outcome Uart
unfolding mode_of_value
mode_of_entry stat uart none = ok uart
mode_of_entry stat uart (some value) = mode_of_value stat uart value

unfoldable pub init_uart_mode_from_vm_info_map : Stat → PropMap → Uart → Outcome Uart
unfolding mode_of_entry
init_uart_mode_from_vm_info_map stat props uart = do
  rank ← to_rank uart.key
  mode_of_entry stat uart (lookup (append "uartmode" (decimal rank)) props)

unfoldable pub type_of_entry : Uart → Option String → Outcome Uart
type_of_entry uart none = ok uart
type_of_entry uart (some value) =
    if not (is_supported_uart_type value)
    then err (bad_uart_type value)
    else ok (record uart { uart_type = value })

unfoldable pub init_uart_type_from_vm_info_map : PropMap → Uart → Outcome Uart
unfolding type_of_entry
init_uart_type_from_vm_info_map props uart = do
  rank ← to_rank uart.key
  type_of_entry uart (lookup (append "uarttype" (decimal rank)) props)

-- the three parts of a port whose property is there and not `off`
unfoldable pub init_uart : Stat → PropMap → Uart → String → Outcome Uart
init_uart stat props uart value = do
  config ← init_from_vm_info_value value
  uart' ← init_uart_mode_from_vm_info_map stat props (record uart { com_config = config })
  init_uart_type_from_vm_info_map props uart'

unfoldable pub uart_of_entry : Stat → PropMap → Uart → Option String → Outcome Uart
unfolding init_uart
uart_of_entry stat props uart none = ok uart
uart_of_entry stat props uart (some value) =
    if not (value == "off") then init_uart stat props uart value else ok uart

unfoldable pub uart_of_rank : Stat → PropMap → ℕ → Outcome Uart
unfolding uart_of_entry
uart_of_rank stat props rank = do
  key ← uart_key_from_rank rank
  uart_of_entry stat props (uart_off_from_key key) (lookup key props)

-- the loop, over the ranks that are left
unfoldable pub uarts_of_ranks : Stat → PropMap → List ℕ → Uarts → Outcome Uarts
unfolding uart_of_rank
uarts_of_ranks stat props [] uarts = ok uarts
uarts_of_ranks stat props (rank ∷ ranks) uarts = do
  uart ← uart_of_rank stat props rank
  uarts_of_ranks stat props ranks (uarts ++ uart ∷ [])

unfoldable pub new_uarts : Stat → PropMap → Outcome Uarts
unfolding uarts_of_ranks
new_uarts stat props = uarts_of_ranks stat props (1 ∷ 2 ∷ 3 ∷ 4 ∷ []) []
