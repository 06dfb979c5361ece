-- ===== src/Go/Net/Mac.antt =====
-- `ParseMAC`: 6, 8 or 20 bytes, as pairs of digits with colons or dashes between them, or as groups of
-- four digits with dots.
use go_virtualbox.Prelude.{
  ℕ, zero, suc, ◌*◌, ◌+◌, String, code, Bool, false, ◌||◌, Option, none, some, List, [], ◌∷◌, ◌++◌,
  length, nat_eq, ltb, if◌then◌else◌,
}
use go_virtualbox.Go.Outcome.{Outcome, ok, err, bad_mac}
use go_virtualbox.Go.Strconv.{digit_value}
use go_virtualbox.Go.Strings.{split}
use go_virtualbox.Go.Net.V4.{Ip}

hex_pair : Option ℕ → Option ℕ → Option ℕ
hex_pair (some hi) (some lo) =
    if ltb hi 16 then (if ltb lo 16 then some (hi * 16 + lo) else none) else none
hex_pair hi lo = none

-- a part between two separators
abbrev PartReader : Type 0
PartReader = String → Option (List ℕ)

pair_part : PartReader
unfolding hex_pair digit_value
pair_part (String.◌∷◌ a (String.◌∷◌ b String.[])) =
    elim (hex_pair (digit_value (code a)) (digit_value (code b))) [
      | some n ↦ some (n ∷ [])
      | none ↦ none
    ]
pair_part s = none

both : Option ℕ → Option ℕ → Option (List ℕ)
both (some m) (some n) = some (m ∷ n ∷ [])
both m n = none

quad_part : PartReader
unfolding hex_pair digit_value both
quad_part (String.◌∷◌ a (String.◌∷◌ b (String.◌∷◌ c (String.◌∷◌ d String.[])))) =
    both (hex_pair (digit_value (code a)) (digit_value (code b)))
      (hex_pair (digit_value (code c)) (digit_value (code d)))
quad_part s = none

join_parts : Option (List ℕ) → Option (List ℕ) → Option (List ℕ)
join_parts (some xs) (some ys) = some (xs ++ ys)
join_parts x y = none

mac_parts : PartReader → List String → Option (List ℕ)
unfolding join_parts
mac_parts reader [] = some []
mac_parts reader (p ∷ ps) = let rest = mac_parts reader ps in join_parts (reader p) rest

abbrev char_at_is : ℕ → ℕ → String → Bool
char_at_is n i String.[] = false
char_at_is n zero (String.◌∷◌ c s) = nat_eq (code c) n
char_at_is n (suc i) (String.◌∷◌ c s) = char_at_is n i s

mac_bytes : String → Option (List ℕ)
unfolding mac_parts pair_part quad_part split
mac_bytes s =
    if char_at_is b':' 2 s
    then mac_parts pair_part (split b':' s)
    else if char_at_is b'-' 2 s
    then mac_parts pair_part (split b'-' s)
    else if char_at_is b'.' 4 s
    then mac_parts quad_part (split b'.' s)
    else none

sized : String → Option (List ℕ) → Outcome Ip
sized s none = err (bad_mac "invalid MAC address" s)
sized s (some bytes) =
    if nat_eq (length bytes) 6 || (nat_eq (length bytes) 8 || nat_eq (length bytes) 20)
    then ok (some bytes)
    else err (bad_mac "invalid MAC address" s)

-- net.ParseMAC(s)
unfoldable pub parse_mac : String → Outcome Ip
unfolding mac_bytes sized
parse_mac s = sized s (mac_bytes s)
