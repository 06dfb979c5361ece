-- ===== src/Networks/Dhcp/Shown.antt =====
-- dhcp.go: the lines that tell a DHCP server, and what the loop does on them.
use Prim.Native.String.append as Append
use package.text.Mathlib.TextLemmas.{cons-ne-nil}
use go_virtualbox.Prelude.{
  ℕ, String, Char, Bool, true, false, none, some, List, [], ◌∷◌, ◌++◌, Dict, lookup, insert, length,
  ◌≡◌, ◌≢◌, refl, ap, ◌∙◌, append, arith, ◌==◌, eq-false,
}
use go_virtualbox.Go.Outcome.{◌>>=◌}
use go_virtualbox.Go.Strconv.{digit_value}
use go_virtualbox.Go.Strings.{Lacks, Lacks-append, lacks, Lacks-lacks, append-one}
use go_virtualbox.Go.Strings.Trim.{to_lower}
use go_virtualbox.Go.Net.V4.{to4}
use go_virtualbox.Go.Net.Parse.{parse_ip}
use go_virtualbox.Go.Net.Show.{dotted}
use go_virtualbox.Go.Net.RoundTrip.{AreBytes, parse_ip-dotted, to4-v4_in_v6, Lacks-decimal_of}
use go_virtualbox.Networks.Lines.Shown.{Unpadded, IsValue, field_line, colon_entry-field_line}
use go_virtualbox.Networks.Dhcp.{
  Dhcp, Servers, update, dhcp_step, dhcp_loop, dhcp_entry, assign_dhcp,
}

-- four bytes
pub record Four : Type 0 where
  pub a : ℕ
  pub b : ℕ
  pub c : ℕ
  pub d : ℕ

abbrev pub bytes_of : Four → List ℕ
bytes_of x = x.a ∷ x.b ∷ x.c ∷ x.d ∷ []

abbrev pub text_of : Four → String
text_of x = dotted (bytes_of x)

abbrev pub IsFour : Four → Type 0
IsFour x = AreBytes x.a x.b x.c x.d

-- a server with its addresses as numbers
pub record Server : Type 0 where
  pub name : String
  pub ip : Four
  pub mask : Four
  pub lower : Four
  pub upper : Four
  pub enabled : Bool

abbrev pub yes_no : Bool → String
yes_no true = "Yes"
yes_no false = "No"

-- the lines that VBoxManage prints, with the values aligned
abbrev pub server_lines : (String → ℕ) → Server → List String
server_lines pad s =
    field_line "NetworkName" (pad "NetworkName") s.name
    ∷ field_line "Dhcpd IP" (pad "Dhcpd IP") (text_of s.ip)
    ∷ field_line "LowerIPAddress" (pad "LowerIPAddress") (text_of s.lower)
    ∷ field_line "UpperIPAddress" (pad "UpperIPAddress") (text_of s.upper)
    ∷ field_line "NetworkMask" (pad "NetworkMask") (text_of s.mask)
    ∷ field_line "Enabled" (pad "Enabled") (yes_no s.enabled)
    ∷ []

abbrev pub dhcp_of : Server → Dhcp
dhcp_of s = record {
  network_name = s.name;
  ipv4 = record { ip = some (bytes_of s.ip); mask = some (bytes_of s.mask) };
  lower_ip = some (bytes_of s.lower);
  upper_ip = some (bytes_of s.upper);
  enabled = s.enabled;
}

pub record IsServer (s : Server) : Type 0 where
  pub name : IsValue s.name
  pub ip : IsFour s.ip
  pub mask : IsFour s.mask
  pub lower : IsFour s.lower
  pub upper : IsFour s.upper

Unpadded-Lacks :
    (s : String) → Lacks 32 s → Lacks 9 s → Lacks 10 s → Lacks 12 s → Lacks 13 s → Unpadded s
Unpadded-Lacks String.[] h1 h2 h3 h4 h5 = tt
Unpadded-Lacks (String.◌∷◌ c s) (h1, _) (h2, _) (h3, _) (h4, _) (h5, _) = ground arith

Lacks-joined :
    (sep : ℕ) (s t : String)
    → sep ≢ b'.'
    → Lacks sep s
    → Lacks sep t
    → Lacks sep (append s (append "." t))
Lacks-joined sep s t dot hs ht =
    Lacks-append sep s (append "." t) hs (rw (append-one "." t) (omega (arith, dot), ht))

Lacks-text_of : (sep : ℕ) → digit_value sep ≡ none → sep ≢ b'.' → (x : Four) → Lacks sep (text_of x)
unfolding dotted
Lacks-text_of sep other dot x =
    let number = Lacks-decimal_of sep other in
    Lacks-joined sep _ _ dot (number x.a)
      (Lacks-joined sep _ _ dot (number x.b) (Lacks-joined sep _ _ dot (number x.c) (number x.d)))

pub text_of-IsValue : (x : Four) → IsValue (text_of x)
unfolding digit_value
text_of-IsValue x = record {
  one_line = Lacks-text_of 10 refl (omega arith) x;
  no_colon = Lacks-text_of b':' refl (omega arith) x;
  unpadded =
      Unpadded-Lacks (text_of x) (Lacks-text_of 32 refl (omega arith) x)
        (Lacks-text_of 9 refl (omega arith) x) (Lacks-text_of 10 refl (omega arith) x)
        (Lacks-text_of 12 refl (omega arith) x) (Lacks-text_of 13 refl (omega arith) x);
}

pub yes_no-IsValue : (b : Bool) → IsValue (yes_no b)
unfolding lacks
yes_no-IsValue true = record {
  one_line = Lacks-lacks 10 "Yes" refl;
  no_colon = Lacks-lacks b':' "Yes" refl;
  unpadded = refl;
}
yes_no-IsValue false = record {
  one_line = Lacks-lacks 10 "No" refl;
  no_colon = Lacks-lacks b':' "No" refl;
  unpadded = refl;
}

pub to4-text_of : (x : Four) → IsFour x → to4 (parse_ip (text_of x)) ≡ some (bytes_of x)
to4-text_of x h = ap to4 (parse_ip-dotted x.a x.b x.c x.d h) ∙ to4-v4_in_v6 x.a x.b x.c x.d

-- one line of the loop
pub dhcp_loop-field :
    (out : String) (c : Char) (key : String) (pad : ℕ) (value : String) (rest : List String)
    (s : Servers)
    → Lacks 10 (String.◌∷◌ c key)
    → IsValue value
    → dhcp_loop out (field_line (String.◌∷◌ c key) pad value ∷ rest) s
      ≡ (assign_dhcp out (to_lower (String.◌∷◌ c key)) value s >>= dhcp_loop out rest)
unfolding dhcp_loop dhcp_step dhcp_entry
dhcp_loop-field out c key pad value rest s one_line is_value =
    let line = field_line (String.◌∷◌ c key) pad value in
    let not_empty : (line == "") ≡ false = rw Append.cons (eq-false _ _ (cons-ne-nil _ _)) in
    rw not_empty (rw (colon_entry-field_line c key pad value one_line is_value) refl)

pub update-last :
    (f : Dhcp → Dhcp) (old : List Dhcp) (d : Dhcp)
    → update (length old) f (old ++ d ∷ []) ≡ old ++ f d ∷ []
update-last f [] d = refl
update-last f (o ∷ old) d = ap (λ l. o ∷ l) (update-last f old d)

pub insert-new :
    {V : Type 0} (name : String) (v : V) (m : Dict V)
    → lookup name m ≡ none
    → insert name v m ≡ m ++ (name, v) ∷ []
unfolding lookup insert
insert-new name v [] h = refl
insert-new name v ((other, w) ∷ m) h = ground (arith, insert-new name v m)
