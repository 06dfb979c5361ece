-- ===== src/Machine/Info/Described.antt =====
-- machine.go: the machine that the properties give, field by field.
use go_virtualbox.Prelude.{ℕ, ◌≤◌, String, none, [], ◌≡◌, lookup, length}
use go_virtualbox.Go.Files.{Stat}
use go_virtualbox.Go.Strconv.{parse_uint}
use go_virtualbox.Uart.Key.{known_uart_keys}
use go_virtualbox.Uart.FromInfo.{PropMap}
use go_virtualbox.Uart.FromInfo.Ports.{ArePorts}
use go_virtualbox.Uart.FromInfo.Faults.{keys}
use go_virtualbox.Storage.Controllers.Known.{AreAt}
use go_virtualbox.Machine.Kinds.{Machine}
use go_virtualbox.Machine.Nic.Read.{NicsAt}
use go_virtualbox.Machine.Info.{or_empty}

-- the property is a decimal number of 32 bits
abbrev pub IsNumber : PropMap → String → ℕ → Type 0
IsNumber props key n = parse_uint (or_empty (lookup key props)) 10 32 ≡ (n, none)

pub record IsDescribed (stat : Stat) (dir : String → String) (props : PropMap) (m : Machine)
    : Type 0 where
  pub name : m.name ≡ or_empty (lookup "name" props)
  pub uuid : m.uuid ≡ or_empty (lookup "UUID" props)
  pub state : m.state ≡ or_empty (lookup "VMState" props)
  pub cfg_file : m.cfg_file ≡ or_empty (lookup "CfgFile" props)
  pub base_folder : m.base_folder ≡ dir m.cfg_file
  pub memory : IsNumber props "memory" m.memory
  pub cpus : IsNumber props "cpus" m.cpus
  pub vram : IsNumber props "vram" m.vram
  pub nics : NicsAt props 4 1 m.nics
  pub nics_fit : length m.nics ≤ 4
  pub uarts : keys m.uarts ≡ known_uart_keys
  pub ports : ArePorts stat props m.uarts
  pub controllers : AreAt props 8 0 m.storage_controllers
  pub no_flag : m.flag ≡ 0
  pub no_boot_order : m.boot_order ≡ []
  pub no_os_type : m.os_type ≡ ""
