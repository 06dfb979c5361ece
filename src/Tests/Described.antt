-- ===== src/Tests/Described.antt =====
-- machine.go: a machine with a NIC, a port and a controller, as the properties describe it.
use go_virtualbox.Prelude.{String, true, false, List, [], ◌∷◌}
use go_virtualbox.Uart.FromInfo.{PropMap}
use go_virtualbox.Uart.Key.{uart1, uart2, uart3, uart4}
use go_virtualbox.Uart.Device.{Uart, uart_off_from_key}
use go_virtualbox.Storage.Kinds.{StorageController}
use go_virtualbox.Machine.Kinds.{Machine, Nic}

abbrev desk_props : PropMap
desk_props =
    ("name", "desk")
    ∷ ("VMState", "running")
    ∷ ("memory", "512")
    ∷ ("cpus", "2")
    ∷ ("vram", "16")
    ∷ ("nic1", "hostonly")
    ∷ ("nictype1", "82540EM")
    ∷ ("macaddress1", "080027")
    ∷ ("hostonlyadapter1", "vboxnet0")
    ∷ ("bridgeadapter1", "eth0")
    ∷ ("nic2", "none")
    ∷ ("uart1", "0x03f8,4")
    ∷ ("uartmode1", "file,/tmp/u")
    ∷ ("uarttype1", "16550A")
    ∷ ("uart2", "off")
    ∷ ("storagecontrollername0", "IDE")
    ∷ ("storagecontrollertype0", "PIIX4")
    ∷ ("storagecontrollerportcount0", "1")
    ∷ ("storagecontrollerbootable0", "off")
    ∷ []

abbrev desk_nic : Nic
desk_nic = record {
  network = "hostonly";
  network_name = "";
  hardware = "82540EM";
  host_interface = "vboxnet0";
  mac_addr = "080027";
}

abbrev desk_port : Uart
desk_port = record {
  com_config = record { port = 1016; irq = 4 };
  uart_type = "16550A";
  mode = "file";
  mode_data = "/tmp/u";
  key = uart1;
}

abbrev desk_controller : StorageController
desk_controller = record {
  name = "IDE";
  sys_bus = "ide";
  ports = 1;
  chipset = "PIIX4";
  host_io_cache = false;
  bootable = false;
  devices = [];
}

abbrev desk : Machine
desk = record {
  name = "desk";
  uuid = "";
  state = "running";
  cpus = 2;
  memory = 512;
  vram = 16;
  cfg_file = "";
  base_folder = "";
  os_type = "";
  flag = 0;
  boot_order = [];
  nics = desk_nic ∷ [];
  uarts =
      desk_port ∷ uart_off_from_key uart2 ∷ uart_off_from_key uart3 ∷ uart_off_from_key uart4 ∷ [];
  storage_controllers = desk_controller ∷ [];
}
