-- ===== src/Go/Net/Parse.antt =====
-- `ParseIP`: the first dot or colon decides on the form.
use go_virtualbox.Prelude.{String, code, none, some, nat_eq, if◌then◌else◌}
use go_virtualbox.Go.Net.V4.{Ip, parse_four, v4_in_v6}
use go_virtualbox.Go.Net.V6.{parse_v6}

abbrev pub widen : Ip → Ip
widen none = none
widen (some bytes) = some (v4_in_v6 bytes)

-- the form of the whole text, by what comes first in the rest
unfoldable pub parse_by : String → String → Ip
unfolding parse_four parse_v6
parse_by s String.[] = none
parse_by s (String.◌∷◌ c rest) =
    let later = parse_by s rest in
    if nat_eq (code c) b'.'
    then widen (parse_four s)
    else if nat_eq (code c) b':'
    then parse_v6 s
    else later

-- net.ParseIP(s), an address of 16 bytes
unfoldable pub parse_ip : String → Ip
unfolding parse_by
parse_ip s = parse_by s s
