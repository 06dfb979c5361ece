-- ===== src/Storage/Media.antt =====
-- storage.go: `findStorageMedia`.
pub mod Found
use go_virtualbox.Prelude.{
  ℕ, zero, suc, ◌+◌, ◌-◌, ◌*◌, ◌%◌, ◌^◌, String, Bool, true, false, ◌||◌, Option, none, some, List,
  [], ◌∷◌, ◌++◌, ltb, leb, if◌then◌else◌, append, lookup, ℤ, pos, negsuc,
}
use go_virtualbox.Go.Outcome.{Outcome, ok, panic, make_slice}
use go_virtualbox.Go.Strconv.{decimal}
use go_virtualbox.Storage.Kinds.{SystemBus, StorageMedium, is_none, max_device_per_port}
use go_virtualbox.Uart.FromInfo.{PropMap}

-- v, with the zero value "" for a missing key
abbrev pub or_empty : Option String → String
or_empty none = ""
or_empty (some s) = s

-- "-" + strconv.Itoa(p) + "-" + strconv.Itoa(d)
unfoldable pub index_suffix : ℕ → ℕ → String
index_suffix p d = append "-" (append (decimal p) (append "-" (decimal d)))

-- the medium that the properties give a port and a device
unfoldable pub medium_of : String → PropMap → ℕ → ℕ → String → StorageMedium
medium_of name props p d medium = record {
  port = p;
  device = d;
  drive_type = "";
  medium = medium;
  uuid = or_empty (lookup (append name (append "-ImageUUID" (index_suffix p d))) props);
}

unfoldable pub add_medium :
    String → PropMap → ℕ → ℕ → Option String → List StorageMedium → List StorageMedium
unfolding medium_of is_none
add_medium name props p d none media = media
add_medium name props p d (some medium) media =
    let sm = medium_of name props p d medium in if is_none sm then media else media ++ sm ∷ []

-- the loops over the devices of a port and over the ports: rounds left, and the index
unfoldable pub device_loop : String → PropMap → ℕ → ℕ → ℕ → List StorageMedium → List StorageMedium
unfolding add_medium index_suffix
device_loop name props p zero d media = media
device_loop name props p (suc left) d media =
    device_loop name props p left (suc d)
      (add_medium name props p d (lookup (append name (index_suffix p d)) props) media)

unfoldable pub port_loop : String → PropMap → ℕ → ℕ → ℕ → List StorageMedium → List StorageMedium
unfolding device_loop
port_loop name props devices zero p media = media
port_loop name props devices (suc left) p media =
    port_loop name props devices left (suc p) (device_loop name props p devices 0 media)

-- The rounds of `for p := 0; p < portCount; p++`.
abbrev pub rounds : ℤ → ℕ
rounds (pos n) = n
rounds (negsuc n) = 0

-- portCount*2 as 64 bits
abbrev pub doubled : ℤ → ℕ
doubled (pos n) = (n * 2) % 2 ^ 64
doubled (negsuc n) = (2 ^ 65 - (n + 1) * 2) % 2 ^ 64

-- `make` panics on a capacity that is negative, or that takes more than the 2^48 bytes that a heap
-- of amd64 Linux can have; a StorageMedium takes 64 bytes. Memory that runs out is not modelled.
unfoldable pub cap_out_of_range : ℕ → Bool
cap_out_of_range cap = leb (2 ^ 63) cap || ltb (2 ^ 48) (cap * 64)

-- The copy at the end leaves the media as they are.
unfoldable pub find_storage_media : String → SystemBus → ℤ → PropMap → Outcome (List StorageMedium)
unfolding port_loop max_device_per_port cap_out_of_range
find_storage_media name bus port_count props =
    if cap_out_of_range (doubled port_count)
    then panic make_slice
    else ok (port_loop name props (max_device_per_port bus) (rounds port_count) 0 [])
