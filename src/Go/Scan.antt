-- ===== src/Go/Scan.antt =====
-- Of package fmt: `Sscanf(s, "0x%x", &n)`.
use go_virtualbox.Prelude.{
  ℕ, String, code, Bool, false, ◌||◌, ◌&&◌, Option, none, some, ltb, leb, nat_eq, if◌then◌else◌,
  ◌≡◌, refl,
}
use go_virtualbox.Go.Strconv.{NumError, digit_value, parse_uint}

-- the white space that `%x` skips; a newline ends the scan
unfoldable pub is_blank : ℕ → Bool
is_blank c =
    nat_eq c 9
    || (nat_eq c 11
        || (nat_eq c 12
            || (nat_eq c 13
                || (nat_eq c 32
                    || (nat_eq c 0x85
                        || (nat_eq c 0xa0
                            || (nat_eq c 0x1680
                                || ((leb 0x2000 c && leb c 0x200a)
                                    || (nat_eq c 0x2028
                                        || (nat_eq c 0x2029
                                            || (nat_eq c 0x202f
                                                || (nat_eq c 0x205f || nat_eq c 0x3000))))))))))))

skip_blanks : String → String
unfolding is_blank
skip_blanks String.[] = String.[]
skip_blanks (String.◌∷◌ c s) =
    let rest = skip_blanks s in if is_blank (code c) then rest else String.◌∷◌ c s

is_hex : ℕ → Bool
unfolding digit_value
is_hex c = elim (digit_value c) [ none ↦ false | some d ↦ ltb d 16 ]

-- the longest prefix of hexadecimal digits
hex_prefix : String → String
unfolding is_hex
hex_prefix String.[] = String.[]
hex_prefix (String.◌∷◌ c s) =
    let rest = hex_prefix s in if is_hex (code c) then String.◌∷◌ c rest else String.[]

scanned : ℕ × Option NumError → Option ℕ
scanned (n, none) = some n
scanned (n, some e) = none

-- What follows the digits is not looked at. A failure leaves the variable as it was.
unfoldable pub sscanf_0x : String → Option ℕ
unfolding skip_blanks hex_prefix scanned parse_uint
sscanf_0x (String.◌∷◌ z (String.◌∷◌ x s)) =
    if nat_eq (code z) b'0' && nat_eq (code x) b'x'
    then scanned (parse_uint (hex_prefix (skip_blanks s)) 16 64)
    else none
sscanf_0x s = none

sscanf_0x_port : sscanf_0x "0x3E8" ≡ some 1000
unfolding sscanf_0x
sscanf_0x_port = refl
