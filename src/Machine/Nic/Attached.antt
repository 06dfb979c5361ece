-- ===== src/Machine/Nic/Attached.antt =====
-- machine.go: what a NIC is that `GetMachine` reads.
use go_virtualbox.Prelude.{
  ℕ, String, some, ◌≡◌, sym, ◌∙◌, arith, append, lookup, ◌==◌, false, inl, inr, ap, Bool-cases,
  eq_iff,
}
use mathlib.Core.Path.{subst}
use go_virtualbox.Go.Outcome.{ok}
use go_virtualbox.Go.Strconv.{decimal}
use go_virtualbox.Storage.Media.{or_empty}
use go_virtualbox.Uart.FromInfo.{PropMap}
use go_virtualbox.Machine.Kinds.{Nic}
use go_virtualbox.Machine.Nic.{nic_of, with_attachment}

-- a property with the number of a NIC, empty when it is missing
abbrev pub property : PropMap → String → ℕ → String
property props key i = or_empty (lookup (append key (decimal i)) props)

-- What a NIC is attached to, its interface of the host and the name of its network, by the kind of
-- the NIC: the property that gives it has the number of the NIC.
pub data IsAttached (props : PropMap) (i : ℕ) : String → String → String → Type 0 where
  to_hostonly : IsAttached props i "hostonly" (property props "hostonlyadapter" i) ""
  to_bridged : IsAttached props i "bridged" (property props "bridgeadapter" i) ""
  to_nat : IsAttached props i "nat" "" (property props "natnet" i)
  to_nat_network : IsAttached props i "natnetwork" "" (property props "nat-network" i)
  to_nothing :
      {network : String}
      → (network == "hostonly") ≡ false
      → (network == "bridged") ≡ false
      → (network == "nat") ≡ false
      → (network == "natnetwork") ≡ false
      → IsAttached props i network "" ""

-- The NIC with the number `i` is as the properties describe it: there is a kind, which is not `none`,
-- the hardware and the address are there, and the rest is that of the kind.
pub record NicIs (props : PropMap) (i : ℕ) (nic : Nic) : Type 0 where
  pub network_is : lookup (append "nic" (decimal i)) props ≡ some nic.network
  pub network_present : (nic.network == "none") ≡ false
  pub hardware_is : nic.hardware ≡ property props "nictype" i
  pub hardware_given : (nic.hardware == "") ≡ false
  pub mac_is : nic.mac_addr ≡ property props "macaddress" i
  pub mac_given : (nic.mac_addr == "") ≡ false
  pub attached : IsAttached props i nic.network nic.host_interface nic.network_name

module _ (props : PropMap) (i : ℕ) (network hardware mac : String) where
  abbrev plain : Nic
  plain = record {
    network = network;
    network_name = "";
    hardware = hardware;
    host_interface = "";
    mac_addr = mac;
  }

  with_attachment-IsAttached :
      IsAttached props i network
        (with_attachment props i plain).host_interface
        (with_attachment props i plain).network_name
  unfolding with_attachment
  with_attachment-IsAttached = elim (Bool-cases (network == "hostonly")) [
    | inl e ↦ rw e (
        subst (λ k. IsAttached props i k (property props "hostonlyadapter" i) "")
          (sym ((eq_iff network "hostonly").0 e)) to_hostonly)
    | inr n1 ↦ elim (Bool-cases (network == "bridged")) [
      | inl e ↦
          rw (n1, e)
            (subst (λ k. IsAttached props i k (property props "bridgeadapter" i) "")
              (sym ((eq_iff network "bridged").0 e)) to_bridged)
      | inr n2 ↦ elim (Bool-cases (network == "nat")) [
        | inl e ↦
            rw (n1, n2, e)
              (subst (λ k. IsAttached props i k "" (property props "natnet" i))
                (sym ((eq_iff network "nat").0 e)) to_nat)
        | inr n3 ↦ elim (Bool-cases (network == "natnetwork")) [
          | inl e ↦
              rw (n1, n2, n3, e)
                (subst (λ k. IsAttached props i k "" (property props "nat-network" i))
                  (sym ((eq_iff network "natnetwork").0 e)) to_nat_network)
          | inr n4 ↦ rw (n1, n2, n3, n4) (to_nothing n1 n2 n3 n4)
        ]
      ]
    ]
  ]

  -- the other fields are kept
  with_attachment-kept :
      let made = with_attachment props i plain in
      (made.network ≡ network) × ((made.hardware ≡ hardware) × (made.mac_addr ≡ mac))
  unfolding with_attachment
  with_attachment-kept = ground arith

made-NicIs :
    (props : PropMap) (i : ℕ) (network : String)
    → lookup (append "nic" (decimal i)) props ≡ some network
    → (network == "none") ≡ false
    → (property props "nictype" i == "") ≡ false
    → (property props "macaddress" i == "") ≡ false
    → let hardware = property props "nictype" i in
      let mac = property props "macaddress" i in
      NicIs props i (with_attachment props i (plain props i network hardware mac))
made-NicIs props i network l n h m =
    let hardware = property props "nictype" i in
    let mac = property props "macaddress" i in
    let attached = with_attachment-IsAttached props i network hardware mac in
    let (same_network, (same_hardware, same_mac)) =
      with_attachment-kept props i network hardware mac in
    let made = with_attachment props i (plain props i network hardware mac) in
    record {
      network_is = l ∙ ap (λ s. some s) (sym same_network);
      network_present = ap (λ s. s == "none") same_network ∙ n;
      hardware_is = same_hardware;
      hardware_given = ap (λ s. s == "") same_hardware ∙ h;
      mac_is = same_mac;
      mac_given = ap (λ s. s == "") same_mac ∙ m;
      attached =
          subst (λ k. IsAttached props i k made.host_interface made.network_name) (sym same_network)
            attached;
    }

nic_ok : {A : Type 0} {x y : A} → ok x ≡ ok y → y ≡ x
nic_ok h = cc

pub nic_of-NicIs :
    (props : PropMap) (i : ℕ) (network : String) (nic : Nic)
    → lookup (append "nic" (decimal i)) props ≡ some network
    → (network == "none") ≡ false
    → nic_of props i network ≡ ok nic
    → NicIs props i nic
unfolding nic_of
nic_of-NicIs props i network nic l n h = elim (Bool-cases (property props "nictype" i == "")) [
  | inl e ↦ absurd (cc (rw e at h))
  | inr n1 ↦ elim (Bool-cases (property props "macaddress" i == "")) [
    | inl e ↦ absurd (cc (rw (n1, e) at h))
    | inr n2 ↦
        let same : ok (
              with_attachment props i (
                plain props i network (property props "nictype" i) (property props "macaddress" i)))
            ≡ ok nic =
          rw (n1, n2) at h in
        subst (NicIs props i) (sym (nic_ok same)) (made-NicIs props i network l n n1 n2)
  ]
]
