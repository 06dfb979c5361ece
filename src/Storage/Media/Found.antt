-- ===== src/Storage/Media/Found.antt =====
-- The loops find every medium once, in the order of the ports and the devices.
use mathlib.Core.List.{flat_map}
use go_virtualbox.Prelude.{
  ℕ, zero, suc, ◌^◌, ◌<◌, String, true, false, Option, none, some, List, [], ◌∷◌, ◌++◌, append,
  lookup, pos, negsuc, ◌≡◌, refl, sym, ◌∙◌, ap, arith, append-nil, append_assoc, Bool-cases, inl,
  inr,
}
use go_virtualbox.Go.Outcome.{ok, panic, make_slice}
use go_virtualbox.Storage.Kinds.{SystemBus, StorageMedium, is_none, max_device_per_port}
use go_virtualbox.Storage.Media.{
  index_suffix, add_medium, device_loop, port_loop, doubled, cap_out_of_range, find_storage_media,
}
use go_virtualbox.Uart.FromInfo.{PropMap}

-- the numbers from `from` on, as many as asked for
abbrev pub range_from : ℕ → ℕ → List ℕ
range_from from zero = []
range_from from (suc n) = from ∷ range_from (suc from) n

module _ (name : String) (props : PropMap) where
  -- the media, none or one, at a port and a device
  unfoldable pub media_at : ℕ → ℕ → List StorageMedium
  media_at p d = add_medium name props p d (lookup (append name (index_suffix p d)) props) []

  -- the media of a port, and of all ports
  unfoldable pub media_of_port : ℕ → ℕ → List StorageMedium
  media_of_port devices p = flat_map (media_at p) (range_from 0 devices)

  unfoldable pub media_of_ports : ℕ → ℕ → List StorageMedium
  media_of_ports devices ports = flat_map (media_of_port devices) (range_from 0 ports)

  add_medium-append :
      (p d : ℕ) (o : Option String) (media : List StorageMedium)
      → add_medium name props p d o media ≡ media ++ add_medium name props p d o []
  unfolding add_medium
  add_medium-append p d none media = sym (append-nil media)
  add_medium-append p d (some medium) media = ground (arith, append-nil media)

  device_loop-flat_map :
      (p left d : ℕ) (media : List StorageMedium)
      → device_loop name props p left d media ≡ media ++ flat_map (media_at p) (range_from d left)
  unfolding device_loop flat_map media_at
  device_loop-flat_map p zero d media = sym (append-nil media)
  device_loop-flat_map p (suc left) d media =
      device_loop-flat_map p left (suc d) _
      ∙ ap (λ ms. ms ++ flat_map (media_at p) (range_from (suc d) left))
          (add_medium-append p d (lookup (append name (index_suffix p d)) props) media)
      ∙ append_assoc media _ _

  port_loop-flat_map :
      (devices left p : ℕ) (media : List StorageMedium)
      → port_loop name props devices left p media
        ≡ media ++ flat_map (media_of_port devices) (range_from p left)
  unfolding port_loop flat_map media_of_port
  port_loop-flat_map devices zero p media = sym (append-nil media)
  port_loop-flat_map devices (suc left) p media =
      port_loop-flat_map devices left (suc p) _
      ∙ ap (λ ms. ms ++ flat_map (media_of_port devices) (range_from (suc p) left))
          (device_loop-flat_map p devices 0 media)
      ∙ append_assoc media _ _

-- A port count from -2^62 to -1 makes `findStorageMedia` panic: the capacity is negative.
pub find_storage_media_negative :
    (name : String) (bus : SystemBus) (n : ℕ) (props : PropMap)
    → n < 2 ^ 62
    → find_storage_media name bus (negsuc n) props ≡ panic make_slice
unfolding find_storage_media cap_out_of_range
find_storage_media_negative name bus n props h =
    let negative : cap_out_of_range (doubled (negsuc n)) ≡ true =
      unfold cap_out_of_range in ground arith in
    rw negative refl

-- What holds of each medium found: its place lies in the range, the properties name it there, and
-- it is a medium.
pub record IsFound (name : String) (props : PropMap) (ports devices : ℕ) (sm : StorageMedium)
    : Type 0 where
  pub port_in_range : sm.port < ports
  pub device_in_range : sm.device < devices
  pub is_named : lookup (append name (index_suffix sm.port sm.device)) props ≡ some sm.medium
  pub is_medium : is_none sm ≡ false

-- When the media are found, they are those of all ports and devices.
pub media_of_ports-found :
    (name : String) (bus : SystemBus) (n : ℕ) (props : PropMap) (media : List StorageMedium)
    → find_storage_media name bus (pos n) props ≡ ok media
    → media_of_ports name props (max_device_per_port bus) n ≡ media
unfolding find_storage_media media_of_ports
media_of_ports-found name bus n props media h =
    elim (Bool-cases (cap_out_of_range (doubled (pos n)))) [
      | inl large ↦ absurd (cc (rw large at h))
      | inr fits ↦
          let devices = max_device_per_port bus in
          cc (port_loop-flat_map name props devices n 0 [], rw fits at h)
    ]
