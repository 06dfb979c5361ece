-- ===== src/Machine/Config.antt =====
-- machine.go: the methods that configure a machine.
pub mod Modified
pub mod Texts
use go_virtualbox.Prelude.{
  ℕ, zero, suc, ◌+◌, String, Bool, true, false, not, Option, none, some, List, [], ◌∷◌, ◌++◌, ◌==◌,
  if◌then◌else◌, append, ltb, leb,
}
use go_virtualbox.CmdArgs.{
  CmdArg, CmdArgs, zero_cmd_args, append_arg, append_cmd_args, append_override, args,
}
use go_virtualbox.Go.Strconv.{decimal}
use go_virtualbox.Storage.Kinds.{StorageController, StorageMedium, uuid_or_medium}
use go_virtualbox.Uart.Commands.{modify_vm_cmd_args}
use go_virtualbox.Vbcmd.{Exec, ◌>>=◌, ◌>>◌, lift, pure, check, this, run, run_out_err}
use go_virtualbox.Machine.Kinds.{Machine, Nic}
use go_virtualbox.Machine.Flags.{
  get, bool2string, acpi, ioapic, rtcuseutc, cpuhotplug, pae, longmode, hpet, hwvirtex,
  triplefaultreset, nestedpaging, largepages, vtxvpid, vtxux, accelerate3d, nested_hw_virt,
}
use go_virtualbox.Machine.Nic.{append_nic_params}
use go_virtualbox.Machine.Lifecycle.{refresh}

-- the arguments with a fixed value, and those of the fields
abbrev pub field_args : Machine → List (String × String)
field_args m =
    ("--firmware", "bios")
    ∷ ("--bioslogofadein", "off")
    ∷ ("--bioslogofadeout", "off")
    ∷ ("--bioslogodisplaytime", "0")
    ∷ ("--biosbootmenu", "disabled")
    ∷ ("--ostype", m.os_type)
    ∷ ("--cpus", decimal m.cpus)
    ∷ ("--memory", decimal m.memory)
    ∷ ("--vram", decimal m.vram)
    ∷ ("--acpi", get m.flag acpi)
    ∷ ("--ioapic", get m.flag ioapic)
    ∷ ("--rtcuseutc", get m.flag rtcuseutc)
    ∷ ("--cpuhotplug", get m.flag cpuhotplug)
    ∷ ("--pae", get m.flag pae)
    ∷ ("--longmode", get m.flag longmode)
    ∷ ("--hpet", get m.flag hpet)
    ∷ ("--hwvirtex", get m.flag hwvirtex)
    ∷ ("--triplefaultreset", get m.flag triplefaultreset)
    ∷ ("--nestedpaging", get m.flag nestedpaging)
    ∷ ("--largepages", get m.flag largepages)
    ∷ ("--vtxvpid", get m.flag vtxvpid)
    ∷ ("--vtxux", get m.flag vtxux)
    ∷ ("--accelerate3d", get m.flag accelerate3d)
    ∷ ("--nested-hw-virt", get m.flag nested_hw_virt)
    ∷ []

unfoldable pub append_all : List (String × String) → CmdArgs → CmdArgs
unfolding append_arg
append_all [] c = c
append_all ((key, value) ∷ rest) c = append_all rest (append_arg key value c)

-- the loop over the boot order, with the index; i > 3 breaks it
unfoldable pub append_boot : ℕ → List String → CmdArgs → CmdArgs
unfolding append_arg
append_boot i [] c = c
append_boot i (dev ∷ devs) c =
    let rest = append_boot (suc i) devs (append_arg (append "--boot" (decimal (i + 1))) dev c) in
    if ltb 3 i then c else rest

-- the loop over the NICs, with the index
unfoldable pub append_nics : ℕ → List Nic → CmdArgs → CmdArgs
unfolding append_nic_params
append_nics i [] c = c
append_nics i (nic ∷ nics) c = append_nics (suc i) nics (append_nic_params (i + 1) nic c)

-- the arguments before those of the serial ports
unfoldable pub machine_args : Machine → CmdArgs
unfolding append_all append_boot append_nics
machine_args m =
    append_nics 0 m.nics (append_boot 0 m.boot_order (append_all (field_args m) zero_cmd_args))

unfoldable pub modify : List CmdArg → Exec Machine (Unit {0})
unfolding machine_args modify_vm_cmd_args append_cmd_args append_override args run_out_err refresh
modify overrides = do
  m ← this
  uart_args ← lift (modify_vm_cmd_args m.uarts)
  let c = append_override overrides (append_cmd_args uart_args (machine_args m))
  (stdout, stderr, e) ← run_out_err ("modifyvm" ∷ m.name ∷ args c)
  check e tt
  refresh

unfoldable pub del_nat_pf : ℕ → String → Exec Machine (Unit {0})
unfolding run
del_nat_pf n name = do
  m ← this
  run ("controlvm" ∷ m.name ∷ append "natpf" (decimal n) ∷ "delete" ∷ name ∷ [])

unfoldable pub set_nic : ℕ → Nic → Exec Machine (Unit {0})
unfolding append_nic_params args run
set_nic rank nic = do
  m ← this
  run ("modifyvm" ∷ m.name ∷ args (append_nic_params rank nic zero_cmd_args))

-- the words of `storagectl`
unfoldable pub storage_ctl_words : String → String → StorageController → List String
unfolding bool2string
storage_ctl_words machine name ctl =
    ("storagectl" ∷ machine ∷ "--name" ∷ name ∷ [])
    ++ (if not (ctl.sys_bus == "") then "--add" ∷ ctl.sys_bus ∷ [] else [])
    ++ (if ltb 0 ctl.ports then "--portcount" ∷ decimal ctl.ports ∷ [] else [])
    ++ (if not (ctl.chipset == "") then "--controller" ∷ ctl.chipset ∷ [] else [])
    ++ ("--hostiocache" ∷ bool2string ctl.host_io_cache ∷ [])
    ++ ("--bootable" ∷ bool2string ctl.bootable ∷ [])

unfoldable pub add_storage_ctl : String → StorageController → Exec Machine (Unit {0})
unfolding storage_ctl_words run
add_storage_ctl name ctl = do m ← this; run (storage_ctl_words m.name name ctl)

unfoldable pub del_storage_ctl : String → Exec Machine (Unit {0})
unfolding run
del_storage_ctl name = do m ← this; run ("storagectl" ∷ m.name ∷ "--name" ∷ name ∷ "--remove" ∷ [])

-- the words of `storageattach`, with what is put in the place
unfoldable pub storage_attach_words : String → String → StorageMedium → String → List String
storage_attach_words machine ctl_name sm medium =
    "storageattach"
    ∷ machine
    ∷ "--storagectl"
    ∷ ctl_name
    ∷ "--port"
    ∷ decimal sm.port
    ∷ "--device"
    ∷ decimal sm.device
    ∷ "--type"
    ∷ sm.drive_type
    ∷ "--medium"
    ∷ medium
    ∷ []

unfoldable pub attach_storage : String → StorageMedium → Exec Machine (Unit {0})
unfolding storage_attach_words uuid_or_medium run
attach_storage ctl_name sm = do
  m ← this
  run (storage_attach_words m.name ctl_name sm (uuid_or_medium sm))

unfoldable pub detach_storage : String → StorageMedium → Exec Machine (Unit {0})
unfolding storage_attach_words run
detach_storage ctl_name sm = do m ← this; run (storage_attach_words m.name ctl_name sm "none")

unfoldable pub set_extra_data : String → String → Exec Machine (Unit {0})
unfolding run
set_extra_data key val = do m ← this; run ("setextradata" ∷ m.name ∷ key ∷ val ∷ [])

unfoldable pub delete_extra_data : String → Exec Machine (Unit {0})
unfolding run
delete_extra_data key = do m ← this; run ("setextradata" ∷ m.name ∷ key ∷ [])
