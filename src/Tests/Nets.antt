-- ===== src/Tests/Nets.antt =====
-- dhcp.go, hostonlynet.go, natnet.go and util.go at concrete lists.
use go_virtualbox.Prelude.{ℕ, String, true, none, some, List, [], ◌∷◌, ◌≡◌, refl, map, arith}
use go_virtualbox.Go.Outcome.{ok, err, bad_number, already_parsed, ◌>>=◌}
use go_virtualbox.Go.Net.V4.{v4_in_v6}
use go_virtualbox.Go.Net.Parse.{parse_ip}
use go_virtualbox.Go.Net.Show.{dotted, ip_string, ip_net_string, mask_ones}
use go_virtualbox.Go.Net.Masks.{parse_cidr, cidr_mask}
use go_virtualbox.Go.Net.Mac.{parse_mac}
use go_virtualbox.Networks.Lines.{Reader, read_entries, line_loop, finish}
use go_virtualbox.Networks.Lines.Blocks.{assign_blocks, line_loop-assign_blocks}
use go_virtualbox.Networks.Masks.{parse_ipv4_mask, parse_ipv4_mask-dotted}
use go_virtualbox.Networks.Hostonly.{HostonlyNet, named, hostonly_reader, assign_hostonly}
use go_virtualbox.Networks.Nat.{NatNet, no_nat_net, nat_reader}
use go_virtualbox.Networks.Dhcp.{read_dhcps, dhcp_string}
use go_virtualbox.Networks.Dhcp.Shown.{Four, Server, dhcp_of}

parse_ip_v6 :
    parse_ip "fd17:625c:f037:2::1"
    ≡ some (0xfd ∷ 0x17 ∷ 0x62 ∷ 0x5c ∷ 0xf0 ∷ 0x37 ∷ 0 ∷ 2 ∷ 0 ∷ 0 ∷ 0 ∷ 0 ∷ 0 ∷ 0 ∷ 0 ∷ 1 ∷ [])
unfolding parse_ip
parse_ip_v6 = refl

parse_ip_mapped : parse_ip "::ffff:10.0.0.1" ≡ some (v4_in_v6 (10 ∷ 0 ∷ 0 ∷ 1 ∷ []))
unfolding parse_ip
parse_ip_mapped = refl

parse_ip_all :
    map parse_ip ("01.2.3.4" ∷ "1.2.3" ∷ "1::2::3" ∷ "1:2" ∷ "12345::" ∷ ":" ∷ "::1:" ∷ [])
    ≡ none ∷ none ∷ none ∷ none ∷ none ∷ none ∷ none ∷ []
unfolding parse_ip
parse_ip_all = refl

ip_string_v6 :
    map
      (λ s. ip_string (parse_ip s))
      ("fd17:625c:f037:2::1" ∷ "::" ∷ "1::" ∷ "1:0:0:2:0:0:0:3" ∷ "1:2:3:4:5:6:0:8"
        ∷ "::ffff:1.2.3.4" ∷ [])
    ≡ "fd17:625c:f037:2::1" ∷ "::" ∷ "1::" ∷ "1:0:0:2::3" ∷ "1:2:3:4:5:6:0:8" ∷ "1.2.3.4" ∷ []
unfolding ip_string parse_ip
ip_string_v6 = refl

mask_length : mask_ones (cidr_mask 64 128) ≡ 64
unfolding mask_ones cidr_mask
mask_length = refl

parse_cidr_v4 :
    parse_cidr "10.12.0.0/20"
    ≡ ok (v4_in_v6 (10 ∷ 12 ∷ 0 ∷ 0 ∷ []), some (255 ∷ 255 ∷ 240 ∷ 0 ∷ []))
unfolding parse_cidr
parse_cidr_v4 = refl

parse_mac_colons : parse_mac "0a:00:27:00:00:00" ≡ ok (some (10 ∷ 0 ∷ 39 ∷ 0 ∷ 0 ∷ 0 ∷ []))
unfolding parse_mac
parse_mac_colons = refl

net_printed :
    ip_net_string (record { ip = parse_ip "10.1.2.3"; mask = some (255 ∷ 255 ∷ 0 ∷ 0 ∷ []) })
    ≡ "10.1.2.3/16"
unfolding ip_net_string parse_ip
net_printed = refl

-- a prefix of 128 bits does not fit into a number of 7 bits
long_prefix :
    assign_hostonly "IPV6NetworkMaskPrefixLength" "128" (named "vboxnet0") ≡ err (bad_number "128")
unfolding assign_hostonly
long_prefix = refl

-- the block that no empty line ends is lost, and an empty line that follows another adds an entry
abbrev nat_list : String
nat_list = "Name:         a\nEnabled:      Yes\n\n\nName:         b\n"

nat_read :
    read_entries nat_reader nat_list
    ≡ ok (("a", record no_nat_net { name = "a"; enabled = true }) ∷ ("", no_nat_net) ∷ [])
unfolding read_entries go_virtualbox.Networks.Nat.assign_nat
nat_read = refl

parse_ipv4_mask-dotted_example :
    parse_ipv4_mask "255.255.240.0" ≡ ok (some (255 ∷ 255 ∷ 240 ∷ 0 ∷ []))
unfolding dotted
parse_ipv4_mask-dotted_example =
    parse_ipv4_mask-dotted 255 255 240 0 (omega arith, omega arith, omega arith, omega arith)

abbrev addr : ℕ → Four
addr n = record { a = 10; b = 0; c = 0; d = n }

abbrev server : String → Server
server name = record {
  name = name;
  ip = addr 1;
  mask = record { a = 255; b = 255; c = 255; d = 0 };
  lower = addr 2;
  upper = addr 9;
  enabled = true;
}

abbrev two_servers : List Server
two_servers = server "a" ∷ server "b" ∷ []

abbrev net_block : String → List String
net_block name = name ∷ "DHCP:            Disabled" ∷ []

abbrev net_named : String → HostonlyNet
net_named name = record (named "") { network_name = name }

line_loop-assign_blocks_example :
    (line_loop hostonly_reader
        ("VBoxNetworkName: a" ∷ "DHCP:            Disabled" ∷ "" ∷ "VBoxNetworkName: b"
          ∷ "DHCP:            Disabled" ∷ [])
        ([], named "")
      >>= finish hostonly_reader none)
    ≡ ok (("a", net_named "a") ∷ [])
unfolding assign_blocks go_virtualbox.Networks.Lines.assign_entry
    go_virtualbox.Networks.Lines.colon_entry assign_hostonly line_loop finish
line_loop-assign_blocks_example =
    line_loop-assign_blocks hostonly_reader (net_block "VBoxNetworkName: a" ∷ [])
      (net_block "VBoxNetworkName: b") [] none ((refl, (refl, tt)), tt) (refl, (refl, tt))

-- the text of a server tells its lower address twice
stop_is_lower :
    dhcp_string (dhcp_of (server "a"))
    ≡ "DHCP[a, net=10.0.0.1/24, start=10.0.0.2 stop=10.0.0.2, enable=true]"
unfolding dhcp_string
stop_is_lower = refl

-- a name that comes twice is an error
twice :
    read_dhcps "NetworkName: a\n\nNetworkName: a\n"
    ≡ err (already_parsed "a" "NetworkName: a\n\nNetworkName: a\n")
unfolding read_dhcps
twice = refl
