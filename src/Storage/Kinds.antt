-- ===== src/Storage/Kinds.antt =====
-- storage.go: buses, chipsets and drive types, which are texts, and the records.
use go_virtualbox.Prelude.{ℕ, String, Bool, ◌&&◌, ◌||◌, List, ◌==◌, if◌then◌else◌}
use go_virtualbox.Go.Outcome.{Outcome, ok, err, bad_controller}

abbrev pub SystemBus : Type 0
SystemBus = String

abbrev pub sys_bus_ide : SystemBus
sys_bus_ide = "ide"

abbrev pub sys_bus_sata : SystemBus
sys_bus_sata = "sata"

abbrev pub sys_bus_scsi : SystemBus
sys_bus_scsi = "scsi"

abbrev pub sys_bus_floppy : SystemBus
sys_bus_floppy = "floppy"

abbrev pub sys_bus_sas : SystemBus
sys_bus_sas = "sas"

abbrev pub sys_bus_usb : SystemBus
sys_bus_usb = "usb"

abbrev pub sys_bus_pci : SystemBus
sys_bus_pci = "pcie"

abbrev pub sys_bus_virtio_scsi : SystemBus
sys_bus_virtio_scsi = "virtio"

abbrev pub StorageControllerChipset : Type 0
StorageControllerChipset = String

abbrev pub ctrl_lsi_logic : StorageControllerChipset
ctrl_lsi_logic = "LSILogic"

abbrev pub ctrl_lsi_logic_sas : StorageControllerChipset
ctrl_lsi_logic_sas = "LSILogicSAS"

abbrev pub ctrl_bus_logic : StorageControllerChipset
ctrl_bus_logic = "BusLogic"

abbrev pub ctrl_intel_ahci : StorageControllerChipset
ctrl_intel_ahci = "IntelAHCI"

abbrev pub ctrl_piix3 : StorageControllerChipset
ctrl_piix3 = "PIIX3"

abbrev pub ctrl_piix4 : StorageControllerChipset
ctrl_piix4 = "PIIX4"

abbrev pub ctrl_ich6 : StorageControllerChipset
ctrl_ich6 = "ICH6"

abbrev pub ctrl_i82078 : StorageControllerChipset
ctrl_i82078 = "I82078"

abbrev pub ctlr_usb : StorageControllerChipset
ctlr_usb = "USB"

abbrev pub ctlr_nvme : StorageControllerChipset
ctlr_nvme = "NVMe"

abbrev pub ctrl_virtio_scsi : StorageControllerChipset
ctrl_virtio_scsi = "VirtIO"

abbrev pub DriveType : Type 0
DriveType = String

abbrev pub drive_dvd : DriveType
drive_dvd = "dvddrive"

abbrev pub drive_hdd : DriveType
drive_hdd = "hdd"

abbrev pub drive_fdd : DriveType
drive_fdd = "fdd"

pub record StorageMedium : Type 0 where
  pub port : ℕ  -- uint
  pub device : ℕ  -- uint
  pub drive_type : DriveType
  pub medium : String
  pub uuid : String

pub record StorageController : Type 0 where
  pub name : String
  pub sys_bus : SystemBus
  pub ports : ℕ  -- uint
  pub chipset : StorageControllerChipset
  pub host_io_cache : Bool
  pub bootable : Bool
  pub devices : List StorageMedium

abbrev pub StorageControllers : Type 0
StorageControllers = List StorageController

unfoldable pub uuid_or_medium : StorageMedium → String
uuid_or_medium sm = if sm.uuid == "" then sm.medium else sm.uuid

unfoldable pub is_none : StorageMedium → Bool
is_none sm = sm.uuid == "" && sm.medium == "none"

unfoldable pub max_device_per_port : SystemBus → ℕ
max_device_per_port bus = if bus == sys_bus_ide || bus == sys_bus_floppy then 2 else 1

-- The name is the source's, vmInfogStrorageControllerTypeToBusAndChipset, with its spelling mended.
unfoldable pub type_to_bus_and_chipset : String → Outcome (SystemBus × StorageControllerChipset)
type_to_bus_and_chipset sc_type =
    if sc_type == "IntelAhci"
    then ok (sys_bus_sata, ctrl_intel_ahci)
    else if sc_type == "LsiLogic"
    then ok (sys_bus_scsi, ctrl_lsi_logic)
    else if sc_type == "BusLogic"
    then ok (sys_bus_scsi, ctrl_bus_logic)
    else if sc_type == "PIIX3"
    then ok (sys_bus_ide, ctrl_piix3)
    else if sc_type == "PIIX4"
    then ok (sys_bus_ide, ctrl_piix4)
    else if sc_type == "ICH6"
    then ok (sys_bus_ide, ctrl_ich6)
    else if sc_type == "I82078"
    then ok (sys_bus_floppy, ctrl_i82078)
    else if sc_type == "LsiLogicSas"
    then ok (sys_bus_sas, ctrl_lsi_logic_sas)
    else if sc_type == "USB"
    then ok (sys_bus_usb, ctlr_usb)
    else if sc_type == "NVMe"
    then ok (sys_bus_pci, ctlr_nvme)
    else if sc_type == "VirtioSCSI"
    then ok (sys_bus_virtio_scsi, ctrl_virtio_scsi)
    else if sc_type == "unknown"
    then ok (sc_type, sc_type)
    else err (bad_controller sc_type)
