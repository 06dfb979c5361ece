-- ===== src/Go/Net/V6.antt =====
-- The form of IPv6 addresses: up to eight groups of at most four hexadecimal digits, one `::` for the
-- zeros that are left out, and the dotted form of an IPv4 address at the end.
use go_virtualbox.Prelude.{
  ℕ, zero, suc, ◌+◌, ◌-◌, ◌*◌, ◌/◌, ◌%◌, String, code, Bool, true, false, not, ◌&&◌, ◌||◌, Option,
  none, some, List, [], ◌∷◌, ◌++◌, length, take, ltb, nat_eq, if◌then◌else◌,
}
use go_virtualbox.Go.Strconv.{digit_value}
use go_virtualbox.Go.Net.V4.{Ip, parse_four}

abbrev hex_digit : ℕ → Option ℕ
unfolding digit_value
hex_digit c = elim (digit_value c) [ none ↦ none | some d ↦ if ltb d 16 then some d else none ]

-- up to so many digits, with how many there were and what follows
digit_run : ℕ → String → ℕ → ℕ → ℕ × ℕ × String
unfolding hex_digit
digit_run zero s count n = (count, n, s)
digit_run (suc fuel) String.[] count n = (count, n, String.[])
digit_run (suc fuel) (String.◌∷◌ c s) count n = elim (hex_digit (code c)) [
  | none ↦ (count, n, String.◌∷◌ c s)
  | some d ↦ digit_run fuel s (suc count) (n * 16 + d)
]

some_digits : ℕ × ℕ × String → Option (ℕ × String)
some_digits (zero, n, s) = none
some_digits (suc count, n, s) = some (n, s)

-- a group of one to four digits; a fifth digit is no separator and so an error later
group_of : String → Option (ℕ × String)
unfolding digit_run some_digits
group_of s = some_digits (digit_run 4 s 0 0)

abbrev starts_with : ℕ → String → Bool
starts_with n String.[] = false
starts_with n (String.◌∷◌ c s) = nat_eq (code c) n

-- the bytes so far, where the `::` stood, and what is not read yet
abbrev Read : Type 0
Read = List ℕ × Option ℕ × String

abbrev Again : Type 0
Again = String → List ℕ → Option ℕ → Option Read

-- the dotted form in the last four bytes
dotted_end : String → List ℕ → Option ℕ → Option Read
unfolding parse_four
dotted_end s bytes ellipsis = elim (parse_four s) [
  | none ↦ none
  | some tail ↦
      if (ellipsis_is_none ellipsis && not (nat_eq (length bytes) 12)) || ltb 16 (length bytes + 4)
      then none
      else some (bytes ++ tail, ellipsis, "")
]
  where
    ellipsis_is_none : Option ℕ → Bool
    ellipsis_is_none none = true
    ellipsis_is_none (some n) = false

-- behind `::`
after_ellipsis : Again → String → List ℕ → Option ℕ → Option Read
after_ellipsis again s bytes (some n) = none
after_ellipsis again String.[] bytes none = some (bytes, some (length bytes), "")
after_ellipsis again (String.◌∷◌ c s) bytes none =
    again (String.◌∷◌ c s) bytes (some (length bytes))

-- behind a colon
after_colon : Again → String → List ℕ → Option ℕ → Option Read
unfolding after_ellipsis
after_colon again String.[] bytes ellipsis = none
after_colon again (String.◌∷◌ c s) bytes ellipsis =
    if nat_eq (code c) b':'
    then after_ellipsis again s bytes ellipsis
    else again (String.◌∷◌ c s) bytes ellipsis

-- behind a group
after_group : Again → String → List ℕ → Option ℕ → Option Read
unfolding after_colon
after_group again String.[] bytes ellipsis = some (bytes, ellipsis, "")
after_group again (String.◌∷◌ c s) bytes ellipsis =
    if nat_eq (code c) b':' then after_colon again s bytes ellipsis else none

one_group : Again → String → List ℕ → Option ℕ → Option (ℕ × String) → Option Read
unfolding after_group dotted_end
one_group again s bytes ellipsis none = none
one_group again s bytes ellipsis (some (n, rest)) =
    if starts_with b'.' rest
    then dotted_end s bytes ellipsis
    else after_group again rest (bytes ++ n / 256 ∷ n % 256 ∷ []) ellipsis

-- the loop over the groups: 16 bytes have at most eight
groups : ℕ → Again
unfolding group_of one_group
groups zero s bytes ellipsis = some (bytes, ellipsis, s)
groups (suc fuel) s bytes ellipsis = one_group (groups fuel) s bytes ellipsis (group_of s)

zero_bytes : ℕ → List ℕ
zero_bytes zero = []
zero_bytes (suc n) = 0 ∷ zero_bytes n

drop : ℕ → List ℕ → List ℕ
drop zero xs = xs
drop (suc n) [] = []
drop (suc n) (x ∷ xs) = drop n xs

-- the zeros go where the `::` stood
expand : Option Read → Ip
unfolding zero_bytes drop
expand (some (bytes, none, String.[])) = if nat_eq (length bytes) 16 then some bytes else none
expand (some (bytes, some at, String.[])) =
    if ltb (length bytes) 16
    then some (take at bytes ++ zero_bytes (16 - length bytes) ++ drop at bytes)
    else none
expand read = none

-- a leading `::` is taken off in front of the loop
leading : String → Option Read
unfolding groups
leading (String.◌∷◌ c (String.◌∷◌ d s)) =
    if nat_eq (code c) b':' && nat_eq (code d) b':'
    then (if is_empty s then some ([], some 0, "") else groups 8 s [] (some 0))
    else groups 8 (String.◌∷◌ c (String.◌∷◌ d s)) [] none
  where
    is_empty : String → Bool
    is_empty String.[] = true
    is_empty (String.◌∷◌ c s) = false
leading s = groups 8 s [] none

unfoldable pub parse_v6 : String → Ip
unfolding leading expand
parse_v6 s = expand (leading s)
