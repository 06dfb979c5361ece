-- ===== src/Networks/Dhcp/Fields.antt =====
-- dhcp.go: the lines of one server are read back.
use go_virtualbox.Prelude.{
  ℕ, String, Bool, true, false, none, some, List, [], ◌∷◌, ◌++◌, Dict, lookup, length, ◌≡◌, refl,
  ap, ◌∙◌, ◌==◌,
}
use go_virtualbox.Go.Outcome.{ok, ◌>>=◌}
use go_virtualbox.Go.Strings.{lacks, Lacks-lacks}
use go_virtualbox.Go.Strings.Trim.{to_lower, lower_char}
use go_virtualbox.Networks.Lines.Shown.{field_line}
use go_virtualbox.Networks.Masks.{parse_ipv4_mask-dotted}
use go_virtualbox.Networks.Dhcp.{Dhcp, no_dhcp, Servers, change, save_name, assign_dhcp, dhcp_loop}
use go_virtualbox.Networks.Dhcp.Shown.{
  Four, Server, IsServer, IsFour, bytes_of, text_of, yes_no, server_lines, dhcp_of, to4-text_of,
  text_of-IsValue, yes_no-IsValue, dhcp_loop-field, update-last, insert-new,
}

-- the loop on a server that is being read
abbrev pub reading : List Dhcp → Dict ℕ → Dhcp → Servers
reading old found d = record { store = old ++ d ∷ []; found = found; current = length old }

module _ (out : String) (old : List Dhcp) (rest : List String) where
  -- a line that changes the record alone
  field_read :
      (found : Dict ℕ) (d : Dhcp) (f : Dhcp → Dhcp)
      → (ok (change f (reading old found d)) >>= dhcp_loop out rest)
        ≡ dhcp_loop out rest (reading old found (f d))
  field_read found d f =
      ap
        (λ store.
          dhcp_loop out rest (record { store = store; found = found; current = length old }))
        (update-last f old d)

  name_read :
      (pad : ℕ) (s : Server) (found : Dict ℕ)
      → IsServer s
      → lookup s.name found ≡ none
      → dhcp_loop out (field_line "NetworkName" pad s.name ∷ rest) (reading old found no_dhcp)
        ≡ dhcp_loop out rest (
            reading old
              (found ++ (s.name, length old) ∷ [])
              (record no_dhcp { network_name = s.name }))
  unfolding assign_dhcp save_name to_lower lower_char lacks
  name_read pad s found h new =
      dhcp_loop-field out "N" "etworkName" pad s.name rest (reading old found no_dhcp)
        (Lacks-lacks 10 "NetworkName" refl) h.name
      ∙ rw (new, insert-new s.name (length old) found new)
          (field_read (found ++ (s.name, length old) ∷ []) no_dhcp
            (λ d. record d { network_name = s.name }))

  module _ (found : Dict ℕ) (d : Dhcp) (pad : ℕ) (x : Four) (h : IsFour x) where
    ip_read :
        dhcp_loop out (field_line "Dhcpd IP" pad (text_of x) ∷ rest) (reading old found d)
        ≡ dhcp_loop out rest (
            reading old found
              (record d { ipv4 = record { ip = some (bytes_of x); mask = d.ipv4.mask } }))
    unfolding assign_dhcp to_lower lower_char lacks
    ip_read =
        dhcp_loop-field out "D" "hcpd IP" pad (text_of x) rest (reading old found d)
          (Lacks-lacks 10 "Dhcpd IP" refl) (text_of-IsValue x)
        ∙ rw (to4-text_of x h) (
            field_read found d
              (λ d. record d { ipv4 = record { ip = some (bytes_of x); mask = d.ipv4.mask } }))

    lower_read :
        dhcp_loop out (field_line "LowerIPAddress" pad (text_of x) ∷ rest) (reading old found d)
        ≡ dhcp_loop out rest (reading old found (record d { lower_ip = some (bytes_of x) }))
    unfolding assign_dhcp to_lower lower_char lacks
    lower_read =
        dhcp_loop-field out "L" "owerIPAddress" pad (text_of x) rest (reading old found d)
          (Lacks-lacks 10 "LowerIPAddress" refl) (text_of-IsValue x)
        ∙ rw (to4-text_of x h) (field_read found d (λ d. record d { lower_ip = some (bytes_of x) }))

    upper_read :
        dhcp_loop out (field_line "UpperIPAddress" pad (text_of x) ∷ rest) (reading old found d)
        ≡ dhcp_loop out rest (reading old found (record d { upper_ip = some (bytes_of x) }))
    unfolding assign_dhcp to_lower lower_char lacks
    upper_read =
        dhcp_loop-field out "U" "pperIPAddress" pad (text_of x) rest (reading old found d)
          (Lacks-lacks 10 "UpperIPAddress" refl) (text_of-IsValue x)
        ∙ rw (to4-text_of x h) (field_read found d (λ d. record d { upper_ip = some (bytes_of x) }))

    mask_read :
        dhcp_loop out (field_line "NetworkMask" pad (text_of x) ∷ rest) (reading old found d)
        ≡ dhcp_loop out rest (
            reading old found
              (record d { ipv4 = record { ip = d.ipv4.ip; mask = some (bytes_of x) } }))
    unfolding assign_dhcp to_lower lower_char lacks
    mask_read =
        dhcp_loop-field out "N" "etworkMask" pad (text_of x) rest (reading old found d)
          (Lacks-lacks 10 "NetworkMask" refl) (text_of-IsValue x)
        ∙ rw (parse_ipv4_mask-dotted x.a x.b x.c x.d h) (
            field_read found d
              (λ d. record d { ipv4 = record { ip = d.ipv4.ip; mask = some (bytes_of x) } }))

  enabled_read :
      (found : Dict ℕ) (d : Dhcp) (pad : ℕ) (b : Bool)
      → dhcp_loop out (field_line "Enabled" pad (yes_no b) ∷ rest) (reading old found d)
        ≡ dhcp_loop out rest (reading old found (record d { enabled = b }))
  unfolding assign_dhcp to_lower lower_char lacks
  enabled_read found d pad b =
      dhcp_loop-field out "E" "nabled" pad (yes_no b) rest (reading old found d)
        (Lacks-lacks 10 "Enabled" refl) (yes_no-IsValue b)
      ∙ field_read found d (λ d. record d { enabled = yes_no b == "Yes" })
      ∙ ap (λ b. dhcp_loop out rest (reading old found (record d { enabled = b }))) (is_yes b)
    where
      is_yes : (b : Bool) → (yes_no b == "Yes") ≡ b
      is_yes true = refl
      is_yes false = refl

module _ (out : String) (pad : String → ℕ) where
  -- the lines of one server
  pub block_read :
      (old : List Dhcp) (found : Dict ℕ) (s : Server) (rest : List String)
      → IsServer s
      → lookup s.name found ≡ none
      → dhcp_loop out (server_lines pad s ++ rest) (reading old found no_dhcp)
        ≡ dhcp_loop out rest (reading old (found ++ (s.name, length old) ∷ []) (dhcp_of s))
  block_read old found s rest h new =
      name_read out old _ (pad "NetworkName") s found h new
      ∙ ip_read out old _ _ _ (pad "Dhcpd IP") s.ip h.ip
      ∙ lower_read out old _ _ _ (pad "LowerIPAddress") s.lower h.lower
      ∙ upper_read out old _ _ _ (pad "UpperIPAddress") s.upper h.upper
      ∙ mask_read out old _ _ _ (pad "NetworkMask") s.mask h.mask
      ∙ enabled_read out old rest _ _ (pad "Enabled") s.enabled
