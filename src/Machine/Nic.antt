-- ===== src/Machine/Nic.antt =====
-- machine.go: the NICs of a machine, as `GetMachine` reads them and as `modifyvm` takes them.
pub mod Attached
pub mod Read
use go_virtualbox.Prelude.{
  ℕ, zero, suc, ◌+◌, String, Bool, true, false, not, ◌&&◌, Option, none, some, List, [], ◌∷◌, ◌++◌,
  ◌==◌, if◌then◌else◌, append, lookup,
}
use go_virtualbox.Go.Outcome.{Outcome, ok, err, ◌>>=◌, missing_property}
use go_virtualbox.Go.Strconv.{decimal}
use go_virtualbox.CmdArgs.{CmdArgs, append_arg}
use go_virtualbox.Storage.Media.{or_empty}
use go_virtualbox.Uart.FromInfo.{PropMap}
use go_virtualbox.Machine.Kinds.{
  Nic, NicNetwork, net_absent, net_nat, net_nat_network, net_bridged, net_internal, net_hostonly,
}

-- propMap[fmt.Sprintf("<key>%d", i)]
abbrev pub numbered : PropMap → String → ℕ → String
numbered props key i = or_empty (lookup (append key (decimal i)) props)

-- the interface or the network that the kind of the NIC has
unfoldable pub with_attachment : PropMap → ℕ → Nic → Nic
with_attachment props i nic =
    if nic.network == net_hostonly
    then record nic { host_interface = numbered props "hostonlyadapter" i }
    else if nic.network == net_bridged
    then record nic { host_interface = numbered props "bridgeadapter" i }
    else if nic.network == net_nat
    then record nic { network_name = numbered props "natnet" i }
    else if nic.network == net_nat_network
    then record nic { network_name = numbered props "nat-network" i }
    else nic

-- the body of the loop, for a NIC that is there
unfoldable pub nic_of : PropMap → ℕ → String → Outcome Nic
unfolding with_attachment
nic_of props i network =
    if numbered props "nictype" i == ""
    then err (missing_property (append "nictype" (decimal i)))
    else if numbered props "macaddress" i == ""
    then err (missing_property (append "macaddress" (decimal i)))
    else ok (
        with_attachment props i (record {
          network = network;
          network_name = "";
          hardware = numbered props "nictype" i;
          host_interface = "";
          mac_addr = numbered props "macaddress" i;
        }))

-- nicType, ok := propMap[...]: no NIC, or `none`, breaks the loop
unfoldable pub nic_type_of : Option String → Option String
nic_type_of none = none
nic_type_of (some network) = if network == net_absent then none else some network

-- One round: no type breaks the loop, and an error of the NIC ends it.
unfoldable pub nic_round :
    (String → Outcome Nic)
    → (Nic → Outcome (List Nic))
    → List Nic
    → Option String
    → Outcome (List Nic)
nic_round read continue nics none = ok nics
nic_round read continue nics (some network) = read network >>= continue

-- the loop: rounds left, and the number
unfoldable pub nic_loop : PropMap → ℕ → ℕ → List Nic → Outcome (List Nic)
unfolding nic_round nic_of nic_type_of
nic_loop props zero i nics = ok nics
nic_loop props (suc left) i nics =
    nic_round (nic_of props i) (λ nic. nic_loop props left (suc i) (nics ++ nic ∷ [])) nics
      (nic_type_of (lookup (append "nic" (decimal i)) props))

unfoldable pub nics_of : PropMap → Outcome (List Nic)
unfolding nic_loop
nics_of props = nic_loop props 4 1 []

abbrev pub flag_n : String → ℕ → String
flag_n key n = append key (decimal n)

-- the last branches of `appendNicParams`
unfoldable pub append_attachment : ℕ → Nic → CmdArgs → CmdArgs
unfolding append_arg
append_attachment n nic c =
    if nic.network == net_hostonly
    then append_arg (flag_n "--hostonlyadapter" n) nic.host_interface c
    else if nic.network == net_bridged
    then append_arg (flag_n "--bridgeadapter" n) nic.host_interface c
    else if nic.network == net_nat
    then if not (nic.network_name == "") && not (nic.network_name == "nat")
      then append_arg (flag_n "--natnet" n) nic.network_name c
      else append_arg (flag_n "--natnet" n) "default" c
    else if nic.network == net_nat_network
    then if not (nic.network_name == "")
      then append_arg (flag_n "--nat-network" n) nic.network_name c
      else c
    else if nic.network == net_internal
    then if not (nic.network_name == "")
      then append_arg (flag_n "--intnet" n) nic.network_name c
      else c
    else c

-- It returns no error on any branch.
unfoldable pub append_nic_params : ℕ → Nic → CmdArgs → CmdArgs
unfolding append_attachment append_arg
append_nic_params n nic c =
    let typed = append_arg (flag_n "--cableconnected" n) "on" (
      append_arg (flag_n "--nictype" n) nic.hardware
        (append_arg (flag_n "--nic" n) nic.network c)) in
    append_attachment n nic (
      if not (nic.mac_addr == "")
      then append_arg (flag_n "--macaddress" n) nic.mac_addr typed
      else typed)
