-- ===== src/Go/Net/V4.antt =====
-- The addresses of package net, and the dotted form.
use go_virtualbox.Prelude.{
  ℕ, String, code, Bool, true, false, ◌&&◌, Option, none, some, List, [], ◌∷◌, nat_eq,
  if◌then◌else◌,
}
use go_virtualbox.Go.Strconv.{NumError, parse_uint}
use go_virtualbox.Go.Strings.{split}

-- net.IP, net.IPMask and net.HardwareAddr: `none` is nil, and the bytes are below 256.
abbrev pub Ip : Type 0
Ip = Option (List ℕ)

-- net.IPNet
pub record IpNet : Type 0 where
  pub ip : Ip
  pub mask : Ip

abbrev pub no_net : IpNet
no_net = record { ip = none; mask = none }

-- more than one digit, and the first is 0
abbrev pub leading_zero : String → Bool
leading_zero String.[] = false
leading_zero (String.◌∷◌ c String.[]) = false
leading_zero (String.◌∷◌ c (String.◌∷◌ d s)) = nat_eq (code c) b'0'

unfoldable pub number_of : ℕ × Option NumError → Option ℕ
number_of (n, none) = some n
number_of (n, some e) = none

unfoldable pub octet : String → Option ℕ
unfolding parse_uint number_of
octet s = if leading_zero s then none else number_of (parse_uint s 10 8)

abbrev four : Option ℕ → Option ℕ → Option ℕ → Option ℕ → Option (List ℕ)
four (some a) (some b) (some c) (some d) = some (a ∷ b ∷ c ∷ d ∷ [])
four a b c d = none

unfoldable pub four_of_parts : List String → Option (List ℕ)
unfolding octet
four_of_parts (a ∷ b ∷ c ∷ d ∷ []) = four (octet a) (octet b) (octet c) (octet d)
four_of_parts parts = none

-- four numbers with dots between them
unfoldable pub parse_four : String → Option (List ℕ)
unfolding split four_of_parts
parse_four s = four_of_parts (split b'.' s)

-- the form of 16 bytes
abbrev pub v4_in_v6 : List ℕ → List ℕ
v4_in_v6 bytes = 0 ∷ 0 ∷ 0 ∷ 0 ∷ 0 ∷ 0 ∷ 0 ∷ 0 ∷ 0 ∷ 0 ∷ 255 ∷ 255 ∷ bytes

abbrev pub all_zero : List ℕ → Bool
all_zero [] = true
all_zero (b ∷ bs) = nat_eq b 0 && all_zero bs

-- ip.To4()
unfoldable pub to4 : Ip → Ip
to4 (some (a ∷ b ∷ c ∷ d ∷ [])) = some (a ∷ b ∷ c ∷ d ∷ [])
to4 (some (b0 ∷ b1 ∷ b2 ∷ b3 ∷ b4 ∷ b5 ∷ b6 ∷ b7 ∷ b8 ∷ b9 ∷ b10 ∷ b11 ∷ a ∷ b ∷ c ∷ d ∷ [])) =
    if all_zero (b0 ∷ b1 ∷ b2 ∷ b3 ∷ b4 ∷ b5 ∷ b6 ∷ b7 ∷ b8 ∷ b9 ∷ [])
      && (nat_eq b10 255 && nat_eq b11 255)
    then some (a ∷ b ∷ c ∷ d ∷ [])
    else none
to4 ip = none
