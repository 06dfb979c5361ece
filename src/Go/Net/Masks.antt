-- ===== src/Go/Net/Masks.antt =====
-- `CIDRMask` and `ParseCIDR`.
use go_virtualbox.Prelude.{
  ℕ, zero, suc, ◌-◌, ◌*◌, ◌/◌, ◌^◌, String, code, ◌||◌, Option, none, some, List, [], ◌∷◌, ltb, leb,
  nat_eq, if◌then◌else◌,
}
use go_virtualbox.Go.Outcome.{Outcome, ok, err, bad_cidr}
use go_virtualbox.Go.Strconv.{NumError, parse_uint}
use go_virtualbox.Go.Net.V4.{Ip, parse_four, v4_in_v6}
use go_virtualbox.Go.Net.V6.{parse_v6}

-- so many bytes of a mask with so many ones
unfoldable pub mask_bytes : ℕ → ℕ → List ℕ
mask_bytes zero ones = []
mask_bytes (suc count) ones =
    if leb 8 ones
    then 255 ∷ mask_bytes count (ones - 8)
    else (255 - 255 / 2 ^ ones) ∷ mask_bytes count 0

-- net.CIDRMask(ones, bits)
unfoldable pub cidr_mask : ℕ → ℕ → Ip
unfolding mask_bytes
cidr_mask ones bits =
    if nat_eq bits 32 || nat_eq bits 128
    then (if leb ones bits then some (mask_bytes (bits / 8) ones) else none)
    else none

-- the text around the first slash
cut_slash : String → Option (String × String)
cut_slash String.[] = none
cut_slash (String.◌∷◌ c s) =
    let rest = cut_slash s in if nat_eq (code c) b'/' then some (String.[], s) else push rest
  where
    push : Option (String × String) → Option (String × String)
    push none = none
    push (some (before, after)) = some (String.◌∷◌ c before, after)

-- the address with the number of its bytes
address_of : String → Option (ℕ × List ℕ)
unfolding parse_four parse_v6
address_of s = elim (parse_four s) [
  | some four ↦ some (4, v4_in_v6 four)
  | none ↦ elim (parse_v6 s) [ some bytes ↦ some (16, bytes) | none ↦ none ]
]

masked : String → ℕ × List ℕ → ℕ × Option NumError → Outcome (List ℕ × Ip)
unfolding cidr_mask
masked s (size, ip) (n, none) =
    if ltb (8 * size) n then err (bad_cidr s) else ok (ip, cidr_mask n (8 * size))
masked s (size, ip) (n, some e) = err (bad_cidr s)

cidr_of : String → Option (String × String) → Outcome (List ℕ × Ip)
unfolding address_of masked parse_uint
cidr_of s none = err (bad_cidr s)
cidr_of s (some (addr, mask)) = elim (address_of addr) [
  | none ↦ err (bad_cidr s)
  | some ip ↦ masked s ip (parse_uint mask 10 64)
]

-- net.ParseCIDR(s): the address, and the mask of the network
unfoldable pub parse_cidr : String → Outcome (List ℕ × Ip)
unfolding cut_slash cidr_of
parse_cidr s = cidr_of s (cut_slash s)
