-- ===== src/Go/Strconv.antt =====
-- Of packages strconv and fmt: `ParseUint`, `Atoi`, `Itoa`, and the verbs `%d` and `%04x`. A `uint`
-- and an `int` have 64 bits.
pub mod RoundTrip
use Prim.Native.String.{count}
use go_virtualbox.Prelude.{
  ℕ, zero, suc, ◌+◌, ◌-◌, ◌*◌, ◌/◌, ◌%◌, ◌^◌, String, Char, code, ◌≡◌, refl, Bool, true, false,
  ◌&&◌, Option, none, some, ltb, ◌==◌, leb, nat_eq, if◌then◌else◌, ℤ, pos, negsuc, append,
}

pub data NumError : Type 0 where
  syntax_error range_error : NumError

abbrev within : ℕ → ℕ → ℕ → Bool
within lo hi c = leb lo c && leb c hi

-- the value of a digit in the largest base
unfoldable pub digit_value : ℕ → Option ℕ
digit_value c =
    if within b'0' b'9' c
    then some (c - b'0')
    else if within b'a' b'z' c
    then some (c - b'a' + 10)
    else if within b'A' b'Z' c
    then some (c - b'A' + 10)
    else none

-- The loop of `ParseUint`; a failure returns a number too, as the source's `uint(irq)` shows.
unfoldable pub scan_digits : ℕ → ℕ → ℕ → String → ℕ × Option NumError
scan_digits base max n String.[] = (n, none)
scan_digits base max n (String.◌∷◌ c s) = elim (digit_value (code c)) [
  | none ↦ (0, some syntax_error)
  | some d ↦
      let rest = scan_digits base max (n * base + d) s in
      if leb base d
      then (0, some syntax_error)
      else if ltb max (n * base + d)
      then (max, some range_error)
      else rest
]

-- strconv.ParseUint(s, base, bitSize), for a base of 2 to 36 that is given
unfoldable pub parse_uint : String → ℕ → ℕ → ℕ × Option NumError
unfolding digit_value scan_digits
parse_uint s base bits =
    if s == "" then (0, some syntax_error) else scan_digits base (2 ^ bits - 1) 0 s

-- the magnitude behind a sign, as an `int`
signed : Bool → ℕ × Option NumError → Option ℤ
signed minus (n, some e) = none
signed false (n, none) = if ltb n (2 ^ 63) then some (pos n) else none
signed true (zero, none) = some (pos 0)
signed true (suc n, none) = if ltb n (2 ^ 63) then some (negsuc n) else none

-- strconv.Atoi
unfoldable pub atoi : String → Option ℤ
unfolding parse_uint signed
atoi String.[] = none
atoi (String.◌∷◌ c s) =
    if nat_eq (code c) b'-'
    then signed true (parse_uint s 10 64)
    else if nat_eq (code c) b'+'
    then signed false (parse_uint s 10 64)
    else signed false (parse_uint (String.◌∷◌ c s) 10 64)

-- the digits of `%d` and `%x`
unfoldable pub digit_char : ℕ → Char
digit_char n =
    if nat_eq n 0
    then "0"
    else if nat_eq n 1
    then "1"
    else if nat_eq n 2
    then "2"
    else if nat_eq n 3
    then "3"
    else if nat_eq n 4
    then "4"
    else if nat_eq n 5
    then "5"
    else if nat_eq n 6
    then "6"
    else if nat_eq n 7
    then "7"
    else if nat_eq n 8
    then "8"
    else if nat_eq n 9
    then "9"
    else if nat_eq n 10
    then "a"
    else if nat_eq n 11
    then "b"
    else if nat_eq n 12
    then "c"
    else if nat_eq n 13
    then "d"
    else if nat_eq n 14
    then "e"
    else "f"

-- the digits of `n` in front of `out`, from the last one on
unfoldable pub digits : ℕ → ℕ → ℕ → String → String
digits zero base n out = out
digits (suc fuel) base n out =
    let longer = String.◌∷◌ (digit_char (n % base)) out in
    let rest = digits fuel base (n / base) longer in if ltb n base then longer else rest

-- A number has fewer digits than its value plus one, so the fuel is never used up.
abbrev pub format_uint : ℕ → ℕ → String
format_uint base n = digits (suc n) base n ""

-- fmt.Sprintf("%d", n) and strconv.Itoa, of a number that is not negative
unfoldable pub decimal : ℕ → String
unfolding digit_char digits
decimal n = format_uint 10 n

unfoldable pub zeros : ℕ → String → String
zeros zero s = s
zeros (suc k) s = String.◌∷◌ "0" (zeros k s)

-- fmt.Sprintf("%04x", n)
unfoldable pub hex4 : ℕ → String
unfolding digit_char digits zeros
hex4 n = zeros (4 - count (format_uint 16 n)) (format_uint 16 n)
