-- ===== src/Networks/Dhcp/Listed.antt =====
-- dhcp.go: `DHCPs` reads back the servers that VBoxManage lists.
use go_virtualbox.Prelude.{
  ℕ, zero, suc, String, false, Option, none, some, List, [], ◌∷◌, ◌++◌, map, Dict, lookup, length,
  length-append, get_elem?, get_elem?-append, elem, ◌≡◌, refl, sym, ap, ◌∙◌, arith, All,
  append_assoc, append-nil,
}
use go_virtualbox.Go.Outcome.{ok, ◌>>=◌}
use go_virtualbox.Go.Scanner.{scan_lines}
use go_virtualbox.Networks.Dhcp.{
  Dhcp, no_dhcp, Servers, names, next_server, dhcp_step, dhcp_loop, finish, read_dhcps,
}
use go_virtualbox.Networks.Dhcp.Shown.{Server, IsServer, server_lines, dhcp_of}
use go_virtualbox.Networks.Dhcp.Fields.{reading, block_read}

abbrev pub empty_lines : ℕ → List String
empty_lines zero = []
empty_lines (suc n) = "" ∷ empty_lines n

-- the servers with an empty line between them, and so many at the end
abbrev pub listing : (String → ℕ) → List Server → ℕ → List String
listing pad [] n = empty_lines n
listing pad (s ∷ []) n = server_lines pad s ++ empty_lines n
listing pad (s ∷ t ∷ servers) n = server_lines pad s ++ "" ∷ listing pad (t ∷ servers) n

-- what a pointer leads to
abbrev pub entry_in : List Dhcp → String × ℕ → String × Option Dhcp
entry_in store (name, place) = (name, get_elem? store place)

-- the map that is returned, with what its pointers lead to
unfoldable pub entries : Servers → List (String × Option Dhcp)
entries s = map (entry_in s.store) s.found

-- no name is among those before it
abbrev pub AllNew : List String → List Server → Type 0
AllNew seen [] = Unit {0}
AllNew seen (s ∷ servers) = (elem s.name seen ≡ false) × AllNew (seen ++ s.name ∷ []) servers

-- the places that the servers get
abbrev places : ℕ → List Server → Dict ℕ
places at [] = []
places at (s ∷ servers) = (s.name, at) ∷ places (suc at) servers

lookup-none :
    (name : String) (found : Dict ℕ) → elem name (names found) ≡ false → lookup name found ≡ none
unfolding lookup
lookup-none name [] h = refl
lookup-none name ((other, place) ∷ found) h = ground (arith, lookup-none name found)

names-append :
    (found : Dict ℕ) (name : String) (place : ℕ)
    → names (found ++ (name, place) ∷ []) ≡ names found ++ name ∷ []
names-append [] name place = refl
names-append (e ∷ found) name place = ap (λ l. e.0 ∷ l) (names-append found name place)

-- What is left in the store and the map: the records of the servers, and records with no name.
record Holds (old : List Dhcp) (found : Dict ℕ) (servers : List Server) (s : Servers) : Type 0 where
  pub spare : List Dhcp
  pub store : s.store ≡ old ++ (map dhcp_of servers ++ spare)
  pub found_all : s.found ≡ found ++ places (length old) servers

length-next : (old : List Dhcp) (d : Dhcp) → length (old ++ d ∷ []) ≡ suc (length old)
length-next old d = let sum = length-append old (d ∷ []) in omega (arith, sum)

Holds-next :
    (old : List Dhcp) (found : Dict ℕ) (s : Server) (servers : List Server) {t : Servers}
    → Holds (old ++ dhcp_of s ∷ []) (found ++ (s.name, length old) ∷ []) servers t
    → Holds old found (s ∷ servers) t
Holds-next old found s servers holds = record {
  spare = holds.spare;
  store = holds.store ∙ append_assoc old (dhcp_of s ∷ []) _;
  found_all =
      holds.found_all
      ∙ append_assoc found ((s.name, length old) ∷ []) _
      ∙ ap (λ n. found ++ (s.name, length old) ∷ places n servers) (length-next old (dhcp_of s));
}

module _ (out : String) (pad : String → ℕ) where
  empties_read :
      (n : ℕ) (s : Servers)
      → (t : Servers) × (dhcp_loop out (empty_lines n) s ≡ ok t)
        × (spare : List Dhcp) × (t.store ≡ s.store ++ spare)
        × (t.found ≡ s.found)
  unfolding dhcp_loop dhcp_step
  empties_read zero s = (s, refl, [], sym (append-nil s.store), refl)
  empties_read (suc n) s =
      let (t, run, spare, store, found) = empties_read n (next_server s) in
      (t, run, no_dhcp ∷ spare, store ∙ append_assoc s.store _ spare, found)

  listing_read :
      (servers : List Server) (n : ℕ) (old : List Dhcp) (found : Dict ℕ)
      → All IsServer servers
      → AllNew (names found) servers
      → (t : Servers) × (dhcp_loop out (listing pad servers n) (reading old found no_dhcp) ≡ ok t)
        × Holds old found servers t
  unfolding dhcp_loop dhcp_step
  listing_read [] n old found h new =
      let (t, run, spare, store, kept) = empties_read n (reading old found no_dhcp) in
      (
        t,
        run,
        record {
          spare = no_dhcp ∷ spare;
          store = store ∙ append_assoc old _ spare;
          found_all = kept ∙ sym (append-nil found);
        },
      )
  listing_read (s ∷ []) n old found (h, _) (new, _) =
      let (t, run, spare, store, kept) =
        empties_read n (reading old (found ++ (s.name, length old) ∷ []) (dhcp_of s)) in
      (
        t,
        block_read out pad old found s (empty_lines n) h (lookup-none s.name found new) ∙ run,
        record { spare = spare; store = store ∙ append_assoc old _ spare; found_all = kept },
      )
  listing_read (s ∷ u ∷ servers) n old found (h, hs) (new, news) =
      let (t, run, holds) =
        listing_read (u ∷ servers) n (old ++ dhcp_of s ∷ []) (found ++ (s.name, length old) ∷ []) hs
          (rw (names-append found s.name (length old)) news) in
      (
        t,
        block_read out pad old found s ("" ∷ listing pad (u ∷ servers) n) h
              (lookup-none s.name found new)
            ∙ run,
        Holds-next old found s (u ∷ servers) holds,
      )

abbrev pub server_entry : Server → String × Option Dhcp
server_entry s = (s.name, some (dhcp_of s))

-- the pointers lead to the records
map-places :
    (old : List Dhcp) (servers : List Server) (spare : List Dhcp)
    → map
        (λ e. (e.0, get_elem? (old ++ (map dhcp_of servers ++ spare)) e.1))
        (places (length old) servers)
      ≡ map server_entry servers
map-places old [] spare = refl
map-places old (s ∷ servers) spare =
    let here = get_elem?-append old (map dhcp_of servers ++ spare) (dhcp_of s) in
    let rest = map-places (old ++ dhcp_of s ∷ []) servers spare in
    let next =
      rw
        (
          append_assoc old (dhcp_of s ∷ []) (map dhcp_of servers ++ spare),
          length-next old (dhcp_of s),
        )
        at rest in
    rw here (ap (λ l. (s.name, some (dhcp_of s)) ∷ l) next)

-- DHCPs reads back servers with different names, each on one line with no colon and no white space in
-- front, and with addresses of four bytes: when the lines that are scanned are those of the servers,
-- with an empty line between them and any number at the end, the map has exactly their names, in
-- order, and each name leads to its server, the last one too.
pub read_dhcps-listing :
    (out : String) (pad : String → ℕ) (servers : List Server) (n : ℕ)
    → All IsServer servers
    → AllNew [] servers
    → scan_lines out ≡ (listing pad servers n, none)
    → (read_dhcps out >>= λ t. ok (entries t)) ≡ ok (map server_entry servers)
unfolding read_dhcps finish entries
read_dhcps-listing out pad servers n h new scanned =
    let (t, run, holds) = listing_read out pad servers n [] [] h new in
    rw scanned
      (rw run (rw (holds.store, holds.found_all) (ap ok (map-places [] servers holds.spare))))
