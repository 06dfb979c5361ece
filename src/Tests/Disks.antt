-- ===== src/Tests/Disks.antt =====
-- storage.go and disk.go at concrete properties.
use go_virtualbox.Prelude.{
  ℕ, zero, suc, String, Bool, true, false, Option, none, some, List, [], ◌∷◌, ◌≡◌, sym, ap, ◌+◌,
}
use go_virtualbox.Go.Outcome.{Error}
use go_virtualbox.Storage.Kinds.{StorageMedium, StorageController, StorageControllers}
use go_virtualbox.Uart.FromInfo.{PropMap}
use go_virtualbox.Disk.{Writer, zero_fill}
use go_virtualbox.Disk.Fill.{IsWriter, zero_fill-ends}

abbrev disk_info : PropMap
disk_info =
    ("storagecontrollername0", "SATA")
    ∷ ("storagecontrollertype0", "IntelAhci")
    ∷ ("storagecontrollerportcount0", "2")
    ∷ ("storagecontrollerbootable0", "on")
    ∷ ("SATA-0-0", "/disks/root.vdi")
    ∷ ("SATA-ImageUUID-0-0", "5b7e")
    ∷ ("SATA-1-0", "none")
    ∷ []

abbrev root_disk : StorageMedium
root_disk = record {
  port = 0;
  device = 0;
  drive_type = "";
  medium = "/disks/root.vdi";
  uuid = "5b7e";
}

abbrev sata : StorageController
sata = record {
  name = "SATA";
  sys_bus = "sata";
  ports = 2;
  chipset = "IntelAHCI";
  host_io_cache = false;
  bootable = true;
  devices = root_disk ∷ [];
}

-- a writer that counts the bytes
abbrev counter : Writer ℕ
counter = record { write = λ w m. (w + m, m, none) }

counter-IsWriter : IsWriter counter (λ w. w)
counter-IsWriter = record {
  takes_all = λ w v m k h. (sym (ap (λ r. r.1) h), sym (ap (λ r. r.0) h));
}

zero_fill-ends_example :
    (v : ℕ) × (e : Option Error) × (zero_fill counter 40000 7 40000 ≡ some (v, e))
    × (e ≡ none → v ≡ 7 + 40000)
zero_fill-ends_example = zero_fill-ends counter (λ w. w) 40000 7 counter-IsWriter
