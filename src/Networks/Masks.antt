-- ===== src/Networks/Masks.antt =====
-- util.go: masks in the form of an address.
use go_virtualbox.Prelude.{ℕ, String, none, some, [], ◌∷◌, ◌≡◌, refl}
use go_virtualbox.Go.Outcome.{Outcome, ok, panic, slice_out_of_range}
use go_virtualbox.Go.Net.V4.{Ip}
use go_virtualbox.Go.Net.Parse.{parse_ip}
use go_virtualbox.Go.Net.Show.{dotted}
use go_virtualbox.Go.Net.RoundTrip.{AreBytes, parse_ip-dotted}

-- the bytes 12 to 15, each of which is looked up
unfoldable pub mask_of : Ip → Outcome Ip
mask_of none = ok none
mask_of
      (some (b0 ∷ b1 ∷ b2 ∷ b3 ∷ b4 ∷ b5 ∷ b6 ∷ b7 ∷ b8 ∷ b9 ∷ b10 ∷ b11 ∷ a ∷ b ∷ c ∷ d ∷ bytes)) =
    ok (some (a ∷ b ∷ c ∷ d ∷ []))
mask_of (some bytes) = panic slice_out_of_range

unfoldable pub parse_ipv4_mask : String → Outcome Ip
unfolding mask_of parse_ip
parse_ipv4_mask s = mask_of (parse_ip s)

-- A mask is read back from its dotted form.
pub parse_ipv4_mask-dotted :
    (a b c d : ℕ)
    → AreBytes a b c d
    → parse_ipv4_mask (dotted (a ∷ b ∷ c ∷ d ∷ [])) ≡ ok (some (a ∷ b ∷ c ∷ d ∷ []))
unfolding parse_ipv4_mask mask_of
parse_ipv4_mask-dotted a b c d bytes = rw (parse_ip-dotted a b c d bytes) refl
