-- ===== src/Storage/Controllers.antt =====
-- storage.go: the controllers and the media of all of them.
pub mod Known
pub mod Types
use go_virtualbox.Prelude.{
  ℕ, zero, suc, ◌+◌, ◌-◌, ◌^◌, String, Bool, true, false, not, Option, none, some, List, [], ◌∷◌,
  ◌++◌, ◌==◌, if◌then◌else◌, append, lookup, ℤ, pos, negsuc,
}
use go_virtualbox.Go.Outcome.{Outcome, ok, err, ◌>>=◌, bad_port_count}
use go_virtualbox.Go.Strconv.{atoi, decimal}
use go_virtualbox.Storage.Kinds.{
  SystemBus, StorageMedium, StorageController, StorageControllers, StorageControllerChipset,
  type_to_bus_and_chipset,
}
use go_virtualbox.Storage.Media.{or_empty, find_storage_media}
use go_virtualbox.Uart.FromInfo.{PropMap}

port_count_of : String → Option ℤ → Outcome ℤ
port_count_of s none = err (bad_port_count s)
port_count_of s (some n) = ok n

-- uint(portCount): a negative count wraps around
abbrev pub to_uint : ℤ → ℕ
to_uint (pos n) = n
to_uint (negsuc n) = 2 ^ 64 - 1 - n

-- the controller that is returned
abbrev pub controller_of :
    String
    → ℤ
    → String
    → SystemBus × StorageControllerChipset
    → List StorageMedium
    → StorageController
controller_of name count bootable_str (bus, chipset) media = record {
  name = name;
  sys_bus = bus;
  ports = to_uint count;
  chipset = chipset;
  host_io_cache = false;
  bootable = bootable_str == "on";
  devices = media;
}

unfoldable pub find_storage_controller_by_index :
    String → String → PropMap → Outcome StorageController
unfolding port_count_of
find_storage_controller_by_index name i_str props = do
  let sc_type = or_empty (lookup (append "storagecontrollertype" i_str) props)
  let port_count_str = or_empty (lookup (append "storagecontrollerportcount" i_str) props)
  port_count ← port_count_of port_count_str (atoi port_count_str)
  let bootable_str = or_empty (lookup (append "storagecontrollerbootable" i_str) props)
  (bus, chipset) ← type_to_bus_and_chipset sc_type
  media ← find_storage_media name bus port_count props
  ok (controller_of name port_count bootable_str (bus, chipset) media)

-- one round of the loop: a missing name skips the index
unfoldable pub add_controller :
    PropMap → String → Option String → StorageControllers → Outcome StorageControllers
unfolding find_storage_controller_by_index
add_controller props i_str none ctrls = ok ctrls
add_controller props i_str (some name) ctrls = do
  sc ← find_storage_controller_by_index name i_str props
  ok (ctrls ++ sc ∷ [])

-- the loop: rounds left, and the index
unfoldable pub controller_loop : PropMap → ℕ → ℕ → StorageControllers → Outcome StorageControllers
unfolding add_controller
controller_loop props zero i ctrls = ok ctrls
controller_loop props (suc left) i ctrls = do
  ctrls' ←
      add_controller props (decimal i) (lookup (append "storagecontrollername" (decimal i)) props)
        ctrls
  controller_loop props left (suc i) ctrls'

unfoldable pub new_storage_controllers_from_props : PropMap → Outcome StorageControllers
unfolding controller_loop
new_storage_controllers_from_props props = controller_loop props 8 0 []

-- the two loops of `DeviceMedia`
unfoldable pub media_names : List StorageMedium → List String → List String
media_names [] media = media
media_names (d ∷ ds) media =
    media_names ds (if not (d.medium == "") then media ++ d.medium ∷ [] else media)

unfoldable pub device_media_loop : StorageControllers → List String → List String
unfolding media_names
device_media_loop [] media = media
device_media_loop (sc ∷ scs) media = device_media_loop scs (media_names sc.devices media)

unfoldable pub device_media : StorageControllers → List String
unfolding device_media_loop
device_media scs = device_media_loop scs []
