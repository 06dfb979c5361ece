-- ===== src/Storage/Controllers/Known.antt =====
-- What the controllers are that `NewStorageControllersFromProps` returns.
use mathlib.Core.List.{flat_map}
use go_virtualbox.Prelude.{
  ℕ, zero, suc, String, not, none, some, List, [], ◌∷◌, ◌++◌, ◌==◌, append, lookup, ℤ, pos, ◌≡◌,
  inl, inr, sym, ◌∙◌, ap, false, append-nil, append_assoc, keep, map, Bool-cases,
}
use go_virtualbox.Go.Outcome.{Outcome, ok}
use go_virtualbox.Go.Strconv.{atoi, decimal}
use go_virtualbox.Storage.Kinds.{
  StorageMedium, StorageController, StorageControllers, max_device_per_port,
}
use go_virtualbox.Storage.Controllers.Types.{controller_kinds}
use go_virtualbox.Storage.Media.{or_empty, find_storage_media}
use go_virtualbox.Storage.Media.Found.{media_of_ports}
use go_virtualbox.Storage.Controllers.{to_uint, media_names, device_media_loop, device_media}
use go_virtualbox.Uart.FromInfo.{PropMap}

-- What the properties say of a controller with an index: the type gives the bus and the chipset as the
-- table has them, it is bootable just when the property says `on`, the cache of the host is off, the
-- count is a number, and the media are those of `findStorageMedia`, the media of all ports and
-- devices when the count is not negative.
pub record IsAt (props : PropMap) (i : ℕ) (sc : StorageController) : Type 0 where
  pub count : ℤ
  pub named : lookup (append "storagecontrollername" (decimal i)) props ≡ some sc.name
  pub typed :
      lookup (or_empty (lookup (append "storagecontrollertype" (decimal i)) props)) controller_kinds
      ≡ some (sc.sys_bus, sc.chipset)
  pub counted :
      atoi (or_empty (lookup (append "storagecontrollerportcount" (decimal i)) props)) ≡ some count
  pub boots :
      sc.bootable
      ≡ (or_empty (lookup (append "storagecontrollerbootable" (decimal i)) props) == "on")
  pub no_cache : sc.host_io_cache ≡ false
  pub ports_are : sc.ports ≡ to_uint count
  pub filled : find_storage_media sc.name sc.sys_bus count props ≡ ok sc.devices
  pub media_are :
      (n : ℕ)
      → count ≡ pos n
      → media_of_ports sc.name props (max_device_per_port sc.sys_bus) n ≡ sc.devices

module _ (props : PropMap) (i : ℕ) (name : String) (sc : StorageController)
    (named : lookup (append "storagecontrollername" (decimal i)) props ≡ some name) where
  abbrev bootable : String
  bootable = or_empty (lookup (append "storagecontrollerbootable" (decimal i)) props)

-- The controllers of the indices from `i` on, `left` of them: an index without a name has none,
-- and one with a name has the controller that the properties describe.
pub data AreAt (props : PropMap) : ℕ → ℕ → StorageControllers → Type 0 where
  done : {i : ℕ} → AreAt props zero i []
  absent :
      {left i : ℕ} {scs : StorageControllers}
      → lookup (append "storagecontrollername" (decimal i)) props ≡ none
      → AreAt props left (suc i) scs
      → AreAt props (suc left) i scs
  present :
      {left i : ℕ} {sc : StorageController} {scs : StorageControllers}
      → IsAt props i sc
      → AreAt props left (suc i) scs
      → AreAt props (suc left) i (sc ∷ scs)

-- the names of the media that have one
abbrev pub names_of : List StorageMedium → List String
names_of media = keep (λ s. not (s == "")) (map (λ sm. sm.medium) media)

media_names-names_of :
    (devices : List StorageMedium) (media : List String)
    → media_names devices media ≡ media ++ names_of devices
unfolding media_names
media_names-names_of [] media = sym (append-nil media)
media_names-names_of (d ∷ ds) media = elim (Bool-cases (d.medium == "")) [
  | inl no_name ↦ rw no_name (media_names-names_of ds media)
  | inr name ↦ rw name (media_names-names_of ds _ ∙ append_assoc media _ _)
]

device_media_loop-flat_map :
    (scs : StorageControllers) (media : List String)
    → device_media_loop scs media ≡ media ++ flat_map (λ sc. names_of sc.devices) scs
unfolding device_media_loop flat_map
device_media_loop-flat_map [] media = sym (append-nil media)
device_media_loop-flat_map (sc ∷ scs) media =
    device_media_loop-flat_map scs _
    ∙ ap (λ m. m ++ flat_map (λ s. names_of s.devices) scs) (media_names-names_of sc.devices media)
    ∙ append_assoc media _ _

-- `DeviceMedia` lists the non-empty media of each controller's devices, controller by controller.
pub device_media-flat_map :
    (scs : StorageControllers) → device_media scs ≡ flat_map (λ sc. names_of sc.devices) scs
unfolding device_media
device_media-flat_map scs = device_media_loop-flat_map scs []
