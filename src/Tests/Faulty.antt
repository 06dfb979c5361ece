-- ===== src/Tests/Faulty.antt =====
-- uart.go and storage.go at inputs that are refused or panic.
use go_virtualbox.Prelude.{true, false, some, [], ◌∷◌, ◌≡◌, refl, arith, append, lookup, negsuc}
use go_virtualbox.Go.Files.{Stat, FileType}
use go_virtualbox.Go.Outcome.{ok, err, panic, bad_uart_mode, slice_out_of_range, make_slice}
use go_virtualbox.Go.Strconv.{decimal}
use go_virtualbox.Uart.Com.{com1, init_from_vm_info_value}
use go_virtualbox.Uart.Commands.{command_parameter_uart_mode_n}
use go_virtualbox.Uart.Device.{Uart, is_off, uart_off_from_key}
use go_virtualbox.Uart.FromInfo.{PropMap, init_uart_mode_from_vm_info_map}
use go_virtualbox.Uart.FromInfo.Faults.{init_from_vm_info_value_panics, host_device_refused}
use go_virtualbox.Uart.Key.{uart1, to_rank}
use go_virtualbox.Storage.Kinds.{sys_bus_sata}
use go_virtualbox.Storage.Media.{find_storage_media}
use go_virtualbox.Storage.Media.Found.{find_storage_media_negative}

abbrev tty_port : Uart
tty_port = record {
  com_config = com1;
  uart_type = "16550A";
  mode = "hostdevice";
  mode_data = "/dev/ttyS0";
  key = uart1;
}

-- as on Linux: a device, and a character device
abbrev tty_file : FileType
tty_file = record {
  dir = false;
  symlink = false;
  device = true;
  named_pipe = false;
  socket = false;
  char_device = true;
  irregular = false;
}

abbrev tty_stat : Stat
tty_stat path = some tty_file

abbrev tty_info : PropMap
tty_info = ("uartmode1", "/dev/ttyS0") ∷ []

abbrev comma_info : PropMap
comma_info = ("uartmode1", "file,/tmp/a,b") ∷ []

tty_rank : to_rank uart1 ≡ ok 1
unfolding to_rank
tty_rank = refl

tty_on : is_off tty_port ≡ false
unfolding is_off
tty_on = refl

tty_name : command_parameter_uart_mode_n tty_port ≡ ok ("--uartmode1 ", "/dev/ttyS0")
unfolding command_parameter_uart_mode_n is_off to_rank decimal
tty_name = refl

short_base : init_from_vm_info_value "0,4" ≡ panic slice_out_of_range
short_base = init_from_vm_info_value_panics "0" "4" (omega arith) (omega arith) (omega arith)

tty_property : lookup (append "uartmode" (decimal 1)) tty_info ≡ some "/dev/ttyS0"
unfolding lookup decimal
tty_property = refl

tty_refused :
    init_uart_mode_from_vm_info_map tty_stat tty_info (uart_off_from_key uart1)
    ≡ err (bad_uart_mode "/dev/ttyS0")
tty_refused =
    host_device_refused tty_stat tty_info (uart_off_from_key uart1) 1 "/dev/ttyS0" tty_file tty_rank
      tty_property (λ h. cc h) (omega arith) refl refl

comma_property : lookup (append "uartmode" (decimal 1)) comma_info ≡ some "file,/tmp/a,b"
unfolding lookup decimal
comma_property = refl

no_ports : find_storage_media "SATA" sys_bus_sata (negsuc 0) [] ≡ panic make_slice
no_ports = find_storage_media_negative "SATA" sys_bus_sata 0 [] (omega arith)
