-- ===== src/Networks/Dhcp.antt =====
-- dhcp.go: the DHCP servers. `DHCPs` keeps pointers in its map, so the model has a store: a pointer is
-- a place in it.
pub mod Shown
pub mod Fields
pub mod Listed
use go_virtualbox.Prelude.{
  ℕ, zero, suc, String, Bool, true, false, ◌||◌, Option, none, some, List, [], ◌∷◌, ◌++◌, map, Dict,
  lookup, insert, length, ◌==◌, if◌then◌else◌, append,
}
use go_virtualbox.Go.Outcome.{Outcome, ok, err, Error, already_parsed, ◌>>=◌}
use go_virtualbox.Go.Scanner.{scan_lines}
use go_virtualbox.Go.Strings.Trim.{to_lower}
use go_virtualbox.Go.Net.V4.{Ip, IpNet, no_net, to4}
use go_virtualbox.Go.Net.Parse.{parse_ip}
use go_virtualbox.Go.Net.Show.{ip_string, ip_net_string}
use go_virtualbox.Vbcmd.{Exec, lift, run, run_out}
use go_virtualbox.Vbcmd.{◌>>=◌ as ◌>>>=◌}
use go_virtualbox.Networks.Lines.{colon_entry, string_yes}
use go_virtualbox.Networks.Masks.{parse_ipv4_mask}

pub record Dhcp : Type 0 where
  pub network_name : String
  pub ipv4 : IpNet
  pub lower_ip : Ip
  pub upper_ip : Ip
  pub enabled : Bool

-- DHCP{}
abbrev pub no_dhcp : Dhcp
no_dhcp = record {
  network_name = "";
  ipv4 = no_net;
  lower_ip = none;
  upper_ip = none;
  enabled = false;
}

-- %t
abbrev pub bool_string : Bool → String
bool_string true = "true"
bool_string false = "false"

abbrev pub concat : List String → String
concat [] = ""
concat (s ∷ ss) = append s (concat ss)

-- dhcp.String()
unfoldable pub dhcp_string : Dhcp → String
unfolding ip_string ip_net_string
dhcp_string d = concat (
    "DHCP["
    ∷ d.network_name
    ∷ ", net="
    ∷ ip_net_string d.ipv4
    ∷ ", start="
    ∷ ip_string d.lower_ip
    ∷ " stop="
    ∷ ip_string d.lower_ip
    ∷ ", enable="
    ∷ bool_string d.enabled
    ∷ "]"
    ∷ [])

abbrev pub add_dhcp_words : String → String → Dhcp → List String
unfolding ip_string
add_dhcp_words kind name d =
    "dhcpserver"
    ∷ "add"
    ∷ kind
    ∷ name
    ∷ "--ip"
    ∷ ip_string d.ipv4.ip
    ∷ "--netmask"
    ∷ ip_string d.ipv4.mask
    ∷ "--lowerip"
    ∷ ip_string d.lower_ip
    ∷ "--upperip"
    ∷ ip_string d.upper_ip
    ∷ (if d.enabled then "--enable" ∷ [] else "--disable" ∷ [])

unfoldable pub add_dhcp : {S : Type 0} → String → String → Dhcp → Exec S (Unit {0})
unfolding run
add_dhcp kind name d = run (add_dhcp_words kind name d)

unfoldable pub add_internal_dhcp : {S : Type 0} → String → Dhcp → Exec S (Unit {0})
unfolding add_dhcp
add_internal_dhcp netname d = add_dhcp "--netname" netname d

unfoldable pub add_hostonly_dhcp : {S : Type 0} → String → Dhcp → Exec S (Unit {0})
unfolding add_dhcp
add_hostonly_dhcp ifname d = add_dhcp "--ifname" ifname d

-- The records that the function has made, the map from names to places, and the place that `dhcp`
-- points to.
pub record Servers : Type 0 where
  pub store : List Dhcp
  pub found : Dict ℕ
  pub current : ℕ

abbrev pub update : ℕ → (Dhcp → Dhcp) → List Dhcp → List Dhcp
update i f [] = []
update zero f (d ∷ ds) = f d ∷ ds
update (suc i) f (d ∷ ds) = d ∷ update i f ds

-- an assignment through `dhcp`
abbrev pub change : (Dhcp → Dhcp) → Servers → Servers
change f s = record s { store = update s.current f s.store }

-- dhcp = &DHCP{}
abbrev pub next_server : Servers → Servers
next_server s = record {
  store = s.store ++ no_dhcp ∷ [];
  found = s.found;
  current = length s.store;
}

abbrev pub names : Dict ℕ → List String
names found = map (λ e. e.0) found

-- the case of the name: an error when the name is in the map
unfoldable pub save_name : String → String → Servers → Option ℕ → Outcome Servers
unfolding insert
save_name out name s (some place) = err (already_parsed name out)
save_name out name s none = ok (record (change (λ d. record d { network_name = name }) s) {
  found = insert name s.current s.found;
})

-- the switch over the keys
unfoldable pub assign_dhcp : String → String → String → Servers → Outcome Servers
unfolding save_name lookup parse_ip parse_ipv4_mask to4
assign_dhcp out key value s =
    if key == "networkname"
    then save_name out value s (lookup value s.found)
    else if key == "ip" || key == "dhcpd ip"
    then ok (
        change (λ d. record d { ipv4 = record { ip = to4 (parse_ip value); mask = d.ipv4.mask } })
          s)
    else if key == "upperipaddress"
    then ok (change (λ d. record d { upper_ip = to4 (parse_ip value) }) s)
    else if key == "loweripaddress"
    then ok (change (λ d. record d { lower_ip = to4 (parse_ip value) }) s)
    else if key == "networkmask"
    then (parse_ipv4_mask value >>= λ mask.
        ok (change (λ d. record d { ipv4 = record { ip = d.ipv4.ip; mask = mask } }) s))
    else if key == "enabled"
    then ok (change (λ d. record d { enabled = value == string_yes }) s)
    else ok s

unfoldable pub dhcp_entry : String → Option (String × String) → Servers → Outcome Servers
unfolding assign_dhcp to_lower
dhcp_entry out none s = ok s
dhcp_entry out (some (key, value)) s = assign_dhcp out (to_lower key) value s

unfoldable pub dhcp_step : String → String → Servers → Outcome Servers
unfolding dhcp_entry colon_entry
dhcp_step out line s =
    if line == "" then ok (next_server s) else dhcp_entry out (colon_entry line) s

unfoldable pub dhcp_loop : String → List String → Servers → Outcome Servers
unfolding dhcp_step
dhcp_loop out [] s = ok s
dhcp_loop out (line ∷ lines) s = dhcp_step out line s >>= dhcp_loop out lines

unfoldable pub finish : Option Error → Servers → Outcome Servers
finish none s = ok s
finish (some e) s = err e

abbrev pub no_servers : Servers
no_servers = record { store = no_dhcp ∷ []; found = []; current = 0 }

-- the map with the store that its pointers lead into
unfoldable pub read_dhcps : String → Outcome Servers
unfolding dhcp_loop finish scan_lines
read_dhcps out = dhcp_loop out (scan_lines out).0 no_servers >>= finish (scan_lines out).1

unfoldable pub dhcps : {S : Type 0} → Exec S Servers
unfolding run_out read_dhcps
dhcps = run_out ("list" ∷ "dhcpservers" ∷ []) >>>= λ out. lift (read_dhcps out)
