-- ===== src/Networks/Nat.antt =====
-- natnet.go: the NAT networks.
use go_virtualbox.Prelude.{String, Bool, false, ◌||◌, [], ◌∷◌, Dict, ◌==◌, if◌then◌else◌}
use go_virtualbox.Go.Outcome.{Outcome, ok, ◌>>=◌}
use go_virtualbox.Go.Net.V4.{IpNet, no_net}
use go_virtualbox.Go.Net.Parse.{parse_ip}
use go_virtualbox.Go.Net.Masks.{parse_cidr}
use go_virtualbox.Vbcmd.{Exec, lift, run_out}
use go_virtualbox.Vbcmd.{◌>>=◌ as ◌>>>=◌}
use go_virtualbox.Networks.Lines.{Reader, read_entries, string_yes}

pub record NatNet : Type 0 where
  pub name : String
  pub ipv4 : IpNet
  pub ipv6 : IpNet
  pub dhcp : Bool
  pub enabled : Bool

-- NATNet{}
abbrev pub no_nat_net : NatNet
no_nat_net = record { name = ""; ipv4 = no_net; ipv6 = no_net; dhcp = false; enabled = false }

-- the switch over the keys
unfoldable pub assign_nat : String → String → NatNet → Outcome NatNet
unfolding parse_ip parse_cidr
assign_nat key value n =
    if key == "Name" || key == "NetworkName"
    then ok (record n { name = value })
    else if key == "IP" || key == "Gateway"
    then ok (record n { ipv4 = record { ip = parse_ip value; mask = n.ipv4.mask } })
    else if key == "Network"
    then (parse_cidr value >>= λ (ip, mask).
        ok (record n { ipv4 = record { ip = n.ipv4.ip; mask = mask } }))
    else if key == "IPv6 Prefix"
    then (parse_cidr value >>= λ (ip, mask).
        ok (record n { ipv6 = record { ip = n.ipv6.ip; mask = mask } }))
    else if key == "DHCP Enabled"
    then ok (record n { dhcp = value == string_yes })
    else if key == "Enabled"
    then ok (record n { enabled = value == string_yes })
    else ok n

abbrev pub nat_reader : Reader NatNet
nat_reader = record { fresh = no_nat_net; key = λ n. n.name; assign = assign_nat }

unfoldable pub nat_nets : {S : Type 0} → Exec S (Dict NatNet)
unfolding run_out read_entries
nat_nets = run_out ("list" ∷ "natnets" ∷ []) >>>= λ out. lift (read_entries nat_reader out)
