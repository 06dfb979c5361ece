-- ===== src/Forwarding.antt =====
-- pfrule.go: the rules of port forwarding.
pub mod Fields
use go_virtualbox.Prelude.{ℕ, String, none, some, append}
use go_virtualbox.Go.Strconv.{decimal}
use go_virtualbox.Go.Net.V4.{Ip}
use go_virtualbox.Go.Net.Show.{ip_string}

abbrev pub PfProto : Type 0
PfProto = String

abbrev pub pf_tcp : PfProto
pf_tcp = "tcp"

abbrev pub pf_udp : PfProto
pf_udp = "udp"

-- The ports are numbers of 16 bits.
pub record PfRule : Type 0 where
  pub proto : PfProto
  pub host_ip : Ip
  pub guest_ip : Ip
  pub host_port : ℕ
  pub guest_port : ℕ

-- an address that may be nil
abbrev pub ip_or_empty : Ip → String
unfolding ip_string
ip_or_empty none = ""
ip_or_empty (some bytes) = ip_string (some bytes)

unfoldable pub grab : PfRule → String × String
unfolding ip_or_empty
grab r = (ip_or_empty r.host_ip, ip_or_empty r.guest_ip)

-- %s,%s,%d,%s,%d
unfoldable pub format : PfRule → String
unfolding grab decimal
format r =
    let (host, guest) = grab r in
    append r.proto (
      append "," (
        append host (
          append "," (
            append (decimal r.host_port)
              (append "," (append guest (append "," (decimal r.guest_port))))))))

-- r.String()
unfoldable pub rule_string : PfRule → String
unfolding grab decimal
rule_string r =
    let (host, guest) = grab r in
    append r.proto (
      append "://" (
        append host (
          append ":" (
            append (decimal r.host_port)
              (append " --> " (append guest (append ":" (decimal r.guest_port))))))))
