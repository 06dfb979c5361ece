-- ===== src/Machine/Kinds.antt =====
-- machine.go: the states and the record of a machine; nic.go.
use go_virtualbox.Prelude.{ℕ, String, List, []}
use go_virtualbox.Uart.Device.{Uarts, new_uarts_all_off}
use go_virtualbox.Storage.Kinds.{StorageControllers}

abbrev pub MachineState : Type 0
MachineState = String

abbrev pub poweroff_state : MachineState
poweroff_state = "poweroff"

abbrev pub running : MachineState
running = "running"

abbrev pub paused : MachineState
paused = "paused"

abbrev pub saved : MachineState
saved = "saved"

abbrev pub aborted : MachineState
aborted = "aborted"

-- a non-negative `int`
abbrev pub Flag : Type 0
Flag = ℕ

abbrev pub NicNetwork : Type 0
NicNetwork = String

abbrev pub net_absent : NicNetwork
net_absent = "none"

abbrev pub net_disconnected : NicNetwork
net_disconnected = "null"

abbrev pub net_nat : NicNetwork
net_nat = "nat"

abbrev pub net_nat_network : NicNetwork
net_nat_network = "natnetwork"

abbrev pub net_bridged : NicNetwork
net_bridged = "bridged"

abbrev pub net_internal : NicNetwork
net_internal = "intnet"

abbrev pub net_hostonly : NicNetwork
net_hostonly = "hostonly"

abbrev pub net_generic : NicNetwork
net_generic = "generic"

abbrev pub NicHardware : Type 0
NicHardware = String

abbrev pub amd_pcnet_pciii : NicHardware
amd_pcnet_pciii = "Am79C970A"

abbrev pub amd_pcnet_fast_iii : NicHardware
amd_pcnet_fast_iii = "Am79C973"

abbrev pub intel_pro1000_mt_desktop : NicHardware
intel_pro1000_mt_desktop = "82540EM"

abbrev pub intel_pro1000_t_server : NicHardware
intel_pro1000_t_server = "82543GC"

abbrev pub intel_pro1000_mt_server : NicHardware
intel_pro1000_mt_server = "82545EM"

abbrev pub virt_io : NicHardware
virt_io = "virtio"

pub record Nic : Type 0 where
  pub network : NicNetwork
  pub network_name : String
  pub hardware : NicHardware
  pub host_interface : String
  pub mac_addr : String

pub record Machine : Type 0 where
  pub name : String
  pub uuid : String
  pub state : MachineState
  pub cpus : ℕ
  pub memory : ℕ
  pub vram : ℕ
  pub cfg_file : String
  pub base_folder : String
  pub os_type : String
  pub flag : Flag
  pub boot_order : List String
  pub nics : List Nic
  pub uarts : Uarts
  pub storage_controllers : StorageControllers

-- New()
unfoldable pub new_machine : Machine
unfolding new_uarts_all_off
new_machine = record {
  name = "";
  uuid = "";
  state = "";
  cpus = 0;
  memory = 0;
  vram = 0;
  cfg_file = "";
  base_folder = "";
  os_type = "";
  flag = 0;
  boot_order = [];
  nics = [];
  uarts = new_uarts_all_off;
  storage_controllers = [];
}
