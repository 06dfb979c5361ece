-- ===== src/Tests/Hosts.antt =====
-- Hosts that reply as VBoxManage does.
use go_virtualbox.Prelude.{String, false, none, some, List, [], ◌∷◌, ◌==◌, if◌then◌else◌}
use go_virtualbox.Go.Outcome.{exec_error, err_not_found}
use go_virtualbox.Vbcmd.{Command, Host, World}
use go_virtualbox.Machine.Kinds.{Machine}

abbrev pub vboxmanage : Command
vboxmanage = record { program = "VBoxManage"; sudoer = false; sudo = false; guest = false }

abbrev pub vm_info : String
vm_info = "name=\"vm\"\nVMState=\"poweroff\"\nmemory=1\ncpus=2\nvram=8\n"

abbrev pub stdout_for : List String → String
stdout_for [] = ""
stdout_for (word ∷ words) =
    if word == "showvminfo" then vm_info else if word == "list" then "\"vm\" {a-1}\n" else ""

-- all commands succeed, and the machine is off when it is looked at
abbrev pub obedient : Host
obedient = record {
  os = "linux";
  manage = vboxmanage;
  stat = λ path. none;
  dir = λ path. path;
  reply = λ log inv. record { stdout = stdout_for inv.argv; stderr = ""; failure = none };
}

-- VBoxManage is not there
abbrev pub without_vboxmanage : Host
without_vboxmanage = record {
  os = "linux";
  manage = vboxmanage;
  stat = λ path. none;
  dir = λ path. path;
  reply = λ log inv. record {
    stdout = "";
    stderr = "";
    failure = some (exec_error inv.program err_not_found);
  };
}

abbrev pub vm_in : String → World Machine
vm_in state = record {
  log = [];
  this = record {
    name = "vm";
    uuid = "";
    state = state;
    cpus = 1;
    memory = 1;
    vram = 1;
    cfg_file = "";
    base_folder = "";
    os_type = "";
    flag = 0;
    boot_order = [];
    nics = [];
    uarts = [];
    storage_controllers = [];
  };
}
