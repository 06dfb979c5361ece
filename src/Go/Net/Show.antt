-- ===== src/Go/Net/Show.antt =====
-- How package net prints addresses, masks and networks.
use go_virtualbox.Prelude.{
  ℕ, zero, suc, ◌+◌, ◌*◌, ◌/◌, ◌%◌, String, ◌&&◌, ◌||◌, Option, none, some, List, [], ◌∷◌, length,
  take, ltb, nat_eq, if◌then◌else◌, append,
}
use go_virtualbox.Go.Strconv.{decimal, digits, digit_char}
use go_virtualbox.Go.Net.V4.{Ip, IpNet, to4, all_zero}

-- the numbers with dots between them
unfoldable pub dotted : List ℕ → String
unfolding decimal
dotted [] = ""
dotted (b ∷ []) = decimal b
dotted (b ∷ c ∷ bs) = append (decimal b) (append "." (dotted (c ∷ bs)))

-- each byte as two hexadecimal digits
unfoldable pub hex_string : List ℕ → String
unfolding digit_char
hex_string [] = ""
hex_string (b ∷ bs) =
    String.◌∷◌ (digit_char (b / 16)) (String.◌∷◌ (digit_char (b % 16)) (hex_string bs))

-- the groups of 16 bits
unfoldable pub words_of : List ℕ → List ℕ
words_of (hi ∷ lo ∷ bytes) = (hi * 256 + lo) ∷ words_of bytes
words_of bytes = []

-- how many zeros the list starts with
zero_prefix : List ℕ → ℕ
zero_prefix [] = zero
zero_prefix (w ∷ ws) = let rest = zero_prefix ws in if nat_eq w 0 then suc rest else zero

-- the first longest run of zeros: where it starts and how long it is
unfoldable pub longest_run : ℕ → List ℕ → ℕ × ℕ → ℕ × ℕ
unfolding zero_prefix
longest_run at [] (start, len) = (start, len)
longest_run at (w ∷ ws) (start, len) =
    let here = zero_prefix (w ∷ ws) in
    if ltb len here
    then longest_run (suc at) ws (at, here)
    else longest_run (suc at) ws (start, len)

-- the groups in hexadecimal with colons between them
unfoldable pub hex_words : List ℕ → String
unfolding digits digit_char
hex_words [] = ""
hex_words (w ∷ []) = digits (suc w) 16 w ""
hex_words (w ∷ v ∷ ws) = append (digits (suc w) 16 w "") (append ":" (hex_words (v ∷ ws)))

unfoldable pub drop : ℕ → List ℕ → List ℕ
drop zero xs = xs
drop (suc n) [] = []
drop (suc n) (x ∷ xs) = drop n xs

-- a run of at least two zeros is left out
unfoldable pub compressed : List ℕ → ℕ × ℕ → String
unfolding hex_words drop
compressed ws (start, len) =
    if ltb 1 len
    then append (hex_words (take start ws)) (append "::" (hex_words (drop (start + len) ws)))
    else hex_words ws

unfoldable pub long_string : List ℕ → String
unfolding compressed words_of longest_run hex_string
long_string bytes =
    if nat_eq (length bytes) 16
    then compressed (words_of bytes) (longest_run 0 (words_of bytes) (0, 0))
    else append "?" (hex_string bytes)

unfoldable pub string_of : Ip → List ℕ → String
unfolding dotted long_string
string_of (some four) bytes = dotted four
string_of none bytes = long_string bytes

-- ip.String()
unfoldable pub ip_string : Ip → String
unfolding string_of to4
ip_string none = "<nil>"
ip_string (some []) = "<nil>"
ip_string (some (b ∷ bytes)) = string_of (to4 (some (b ∷ bytes))) (b ∷ bytes)

-- the ones at the start of a byte that has no further ones
ones_of : ℕ → Option ℕ
ones_of b =
    if nat_eq b 0
    then some 0
    else if nat_eq b 128
    then some 1
    else if nat_eq b 192
    then some 2
    else if nat_eq b 224
    then some 3
    else if nat_eq b 240
    then some 4
    else if nat_eq b 248
    then some 5
    else if nat_eq b 252
    then some 6
    else if nat_eq b 254
    then some 7
    else none

add_ones : ℕ → Option ℕ → Option ℕ
add_ones n none = none
add_ones n (some m) = some (n + m)

-- the length of a mask of ones followed by zeros
simple_mask_length : List ℕ → Option ℕ
unfolding ones_of add_ones
simple_mask_length [] = some 0
simple_mask_length (b ∷ bytes) =
    let rest = simple_mask_length bytes in
    if nat_eq b 255 then add_ones 8 rest else if all_zero bytes then ones_of b else none

-- ones, _ := mask.Size()
unfoldable pub mask_ones : Ip → ℕ
unfolding simple_mask_length
mask_ones none = 0
mask_ones (some bytes) = elim (simple_mask_length bytes) [ none ↦ 0 | some n ↦ n ]

drop_v6_part : List ℕ → List ℕ
unfolding drop
drop_v6_part bytes = if nat_eq (length bytes) 16 then drop 12 bytes else bytes

-- the mask that fits the address
fitting_mask : ℕ → Ip → Option (List ℕ)
unfolding drop_v6_part
fitting_mask ip_length none = none
fitting_mask ip_length (some bytes) =
    if nat_eq ip_length 4 && (nat_eq (length bytes) 4 || nat_eq (length bytes) 16)
    then some (drop_v6_part bytes)
    else if nat_eq ip_length 16 && nat_eq (length bytes) 16
    then some bytes
    else none

-- the address in its short form
net_address : Ip → Option (List ℕ)
unfolding to4
net_address none = none
net_address (some bytes) = elim (to4 (some bytes)) [
  | some four ↦ some four
  | none ↦ if nat_eq (length bytes) 16 then some bytes else none
]

net_string : Option (List ℕ) → Option (List ℕ) → String
unfolding ip_string decimal hex_string simple_mask_length
net_string (some ip) (some mask) =
    append (ip_string (some ip))
      (append "/" (elim (simple_mask_length mask) [ none ↦ hex_string mask | some n ↦ decimal n ]))
net_string ip mask = "<nil>"

-- n.String()
unfoldable pub ip_net_string : IpNet → String
unfolding net_string net_address fitting_mask
ip_net_string n = net_string (net_address n.ip) (fitting_mask (size_of (net_address n.ip)) n.mask)
  where
    size_of : Option (List ℕ) → ℕ
    size_of none = 0
    size_of (some bytes) = length bytes
