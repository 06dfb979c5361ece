-- ===== src/Networks/Hostonly.antt =====
-- hostonlynet.go: the host-only networks, how they are made and set up.
use go_virtualbox.Prelude.{
  ℕ, String, Bool, true, false, not, ◌&&◌, Option, none, some, List, [], ◌∷◌, ◌++◌, Dict, ◌==◌,
  if◌then◌else◌, append,
}
use go_virtualbox.Go.Outcome.{Outcome, ok, err, bad_number, hostonly_creation, ◌>>=◌}
use go_virtualbox.Go.Regexp.{
  Regex, Captures, group, plus, text, dot, all_of, find_submatch, capture,
}
use go_virtualbox.Go.Strconv.{NumError, parse_uint, decimal}
use go_virtualbox.Go.Net.V4.{Ip, IpNet, no_net}
use go_virtualbox.Go.Net.Parse.{parse_ip}
use go_virtualbox.Go.Net.Show.{ip_string, mask_ones}
use go_virtualbox.Go.Net.Masks.{cidr_mask}
use go_virtualbox.Go.Net.Mac.{parse_mac}
use go_virtualbox.Vbcmd.{Exec, Invocation, os_windows, lift, pure, run, run_out}
use go_virtualbox.Vbcmd.{◌>>=◌ as ◌>>>=◌, ◌>>◌}
use go_virtualbox.Vbcmd.Effects.{outcome_of}
use go_virtualbox.Networks.Lines.{Reader, read_entries}
use go_virtualbox.Networks.Masks.{parse_ipv4_mask}

pub record HostonlyNet : Type 0 where
  pub name : String
  pub guid : String
  pub dhcp : Bool
  pub ipv4 : IpNet
  pub ipv6 : IpNet
  pub hw_addr : Ip
  pub medium : String
  pub status : String
  pub network_name : String

-- &HostonlyNet{Name: name}
abbrev pub named : String → HostonlyNet
named name = record {
  name = name;
  guid = "";
  dhcp = false;
  ipv4 = no_net;
  ipv6 = no_net;
  hw_addr = none;
  medium = "";
  status = "";
  network_name = "";
}

-- the length of the prefix, as a number of 7 bits
unfoldable pub prefix_mask : String → ℕ × Option NumError → Outcome Ip
unfolding cidr_mask
prefix_mask value (n, some e) = err (bad_number value)
prefix_mask value (n, none) = ok (cidr_mask n 128)

-- the switch over the keys
unfoldable pub assign_hostonly : String → String → HostonlyNet → Outcome HostonlyNet
unfolding prefix_mask parse_uint parse_ip parse_ipv4_mask parse_mac
assign_hostonly key value n =
    if key == "Name"
    then ok (record n { name = value })
    else if key == "GUID"
    then ok (record n { guid = value })
    else if key == "DHCP"
    then ok (record n { dhcp = not (value == "Disabled") })
    else if key == "IPAddress"
    then ok (record n { ipv4 = record { ip = parse_ip value; mask = n.ipv4.mask } })
    else if key == "NetworkMask"
    then (parse_ipv4_mask value >>= λ mask.
        ok (record n { ipv4 = record { ip = n.ipv4.ip; mask = mask } }))
    else if key == "IPV6Address"
    then ok (record n { ipv6 = record { ip = parse_ip value; mask = n.ipv6.mask } })
    else if key == "IPV6NetworkMaskPrefixLength"
    then (prefix_mask value (parse_uint value 10 7) >>= λ mask.
        ok (record n { ipv6 = record { ip = n.ipv6.ip; mask = mask } }))
    else if key == "HardwareAddress"
    then (parse_mac value >>= λ mac. ok (record n { hw_addr = mac }))
    else if key == "MediumType"
    then ok (record n { medium = value })
    else if key == "Status"
    then ok (record n { status = value })
    else if key == "VBoxNetworkName"
    then ok (record n { network_name = value })
    else ok n

abbrev pub hostonly_reader : Reader HostonlyNet
hostonly_reader = record { fresh = named ""; key = λ n. n.network_name; assign = assign_hostonly }

unfoldable pub hostonly_nets : {S : Type 0} → Exec S (Dict HostonlyNet)
unfolding run_out read_entries
hostonly_nets =
    run_out ("list" ∷ "hostonlyifs" ∷ []) >>>= λ out. lift (read_entries hostonly_reader out)

-- Interface '(.+)' was successfully created
abbrev pub re_hostonly_interface_created : Regex
re_hostonly_interface_created =
    all_of (text "Interface '" ∷ group 1 (plus dot) ∷ text "' was successfully created" ∷ [])

unfoldable pub created : Option Captures → Outcome HostonlyNet
unfolding capture
created none = err hostonly_creation
created (some caps) = ok (named (capture 1 caps))

unfoldable pub create_hostonly_net : {S : Type 0} → Exec S HostonlyNet
unfolding run_out find_submatch created
create_hostonly_net = run_out ("hostonlyif" ∷ "create" ∷ []) >>>= λ out.
    lift (created (find_submatch re_hostonly_interface_created out))

-- exec.Command(program, args...).Run()
abbrev pub run_program : {S : Type 0} → String → List String → Exec S (Unit {0})
run_program program args host w =
    let inv : Invocation = record { program = program; argv = args } in
    (outcome_of (host.reply w.log inv).failure, record w { log = w.log ++ inv ∷ [] })

-- n.IP != nil && n.Mask != nil
unfoldable pub is_set : IpNet → Bool
is_set n = given n.ip && given n.mask
  where
    given : Ip → Bool
    given none = false
    given (some bytes) = true

abbrev run_if : {S : Type 0} → Bool → Exec S (Unit {0}) → Exec S (Unit {0})
run_if b m = if b then m else pure tt

-- the commands of one platform: the address, the address of IPv6, and the DHCP
unfoldable pub config_windows : {S : Type 0} → HostonlyNet → Exec S (Unit {0})
unfolding is_set ip_string mask_ones decimal run
config_windows n =
    run_if (is_set n.ipv4) (
      run_program "netsh" (
        "interface"
        ∷ "ip"
        ∷ "set"
        ∷ "address"
        ∷ append "name=\"" (append n.name "\"")
        ∷ "static"
        ∷ ip_string n.ipv4.ip
        ∷ ip_string n.ipv4.mask
        ∷ []))
    >> run_if (is_set n.ipv6) (
        run_program "netsh" (
          "interface"
          ∷ "ipv6"
          ∷ "add"
          ∷ "address"
          ∷ n.name
          ∷ append (ip_string n.ipv6.ip) (append "/" (decimal (mask_ones n.ipv6.mask)))
          ∷ []))
    >> run_if n.dhcp
        (run ("hostonlyif" ∷ "ipconfig" ∷ append "\"" (append n.name "\"") ∷ "--dhcp" ∷ []))

unfoldable pub config_others : {S : Type 0} → HostonlyNet → Exec S (Unit {0})
unfolding is_set ip_string mask_ones decimal run
config_others n =
    run_if (is_set n.ipv4) (
      run (
        "hostonlyif"
        ∷ "ipconfig"
        ∷ n.name
        ∷ "--ip"
        ∷ ip_string n.ipv4.ip
        ∷ "--netmask"
        ∷ ip_string n.ipv4.mask
        ∷ []))
    >> run_if (is_set n.ipv6) (
        run (
          "hostonlyif"
          ∷ "ipconfig"
          ∷ n.name
          ∷ "--ipv6"
          ∷ ip_string n.ipv6.ip
          ∷ "--netmasklengthv6"
          ∷ decimal (mask_ones n.ipv6.mask)
          ∷ []))
    >> run_if n.dhcp (run ("hostonlyif" ∷ "ipconfig" ∷ n.name ∷ "--dhcp" ∷ []))

unfoldable pub config : {S : Type 0} → HostonlyNet → Exec S (Unit {0})
unfolding config_windows config_others
config n host w = if host.os == os_windows then config_windows n host w else config_others n host w
