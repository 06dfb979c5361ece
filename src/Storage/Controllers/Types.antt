-- ===== src/Storage/Controllers/Types.antt =====
-- storage.go: the bus and the chipset of each type of a controller, as a table.
use go_virtualbox.Prelude.{
  String, true, false, some, List, [], ◌∷◌, ◌≡◌, refl, sym, ap, ◌==◌, eq_iff, eq-false, lookup,
  if◌then◌else◌, Bool-cases, inl, inr,
}
use go_virtualbox.Go.Outcome.{Outcome, ok, err, bad_controller}
use go_virtualbox.Storage.Kinds.{SystemBus, StorageControllerChipset, type_to_bus_and_chipset}

-- the bus and the chipset of each type that VBoxManage prints
abbrev pub controller_kinds : List (String × (SystemBus × StorageControllerChipset))
controller_kinds =
    ("IntelAhci", ("sata", "IntelAHCI"))
    ∷ ("LsiLogic", ("scsi", "LSILogic"))
    ∷ ("BusLogic", ("scsi", "BusLogic"))
    ∷ ("PIIX3", ("ide", "PIIX3"))
    ∷ ("PIIX4", ("ide", "PIIX4"))
    ∷ ("ICH6", ("ide", "ICH6"))
    ∷ ("I82078", ("floppy", "I82078"))
    ∷ ("LsiLogicSas", ("sas", "LSILogicSAS"))
    ∷ ("USB", ("usb", "USB"))
    ∷ ("NVMe", ("pcie", "NVMe"))
    ∷ ("VirtioSCSI", ("virtio", "VirtIO"))
    ∷ ("unknown", ("unknown", "unknown"))
    ∷ []

ok_same : {A : Type 0} {x y : A} → ok x ≡ ok y → x ≡ y
ok_same h = cc

-- the tests of a table from its first line to its last
kind_in :
    List (String × (SystemBus × StorageControllerChipset))
    → String
    → Outcome (SystemBus × StorageControllerChipset)
kind_in [] sc_type = err (bad_controller sc_type)
kind_in ((known, kind) ∷ kinds) sc_type =
    if sc_type == known then ok kind else kind_in kinds sc_type

kind_in-lookup :
    (kinds : List (String × (SystemBus × StorageControllerChipset))) (sc_type : String)
    (kind : SystemBus × StorageControllerChipset)
    → kind_in kinds sc_type ≡ ok kind
    → lookup sc_type kinds ≡ some kind
unfolding kind_in lookup
kind_in-lookup [] sc_type kind h = absurd (cc h)
kind_in-lookup ((known, here) ∷ kinds) sc_type kind h = elim (Bool-cases (sc_type == known)) [
  | inl e ↦
      let same : (known == sc_type) ≡ true =
        (eq_iff known sc_type).1 (sym ((eq_iff sc_type known).0 e)) in
      rw same (ap (λ k. some k) (ok_same (rw e at h)))
  | inr n ↦
      let other : (known == sc_type) ≡ false =
        eq-false known sc_type (λ e. let same = (eq_iff sc_type known).1 (sym e) in cc) in
      rw other (kind_in-lookup kinds sc_type kind (rw n at h))
]

-- the last test gives the type itself
unknown_kind :
    (sc_type : String)
    → (if sc_type == "unknown" then ok (sc_type, sc_type) else err (bad_controller sc_type))
      ≡ kind_in (("unknown", ("unknown", "unknown")) ∷ []) sc_type
unfolding kind_in
unknown_kind sc_type = elim (Bool-cases (sc_type == "unknown")) [
  | inl e ↦ rw e (ap (λ s. ok (s, s)) ((eq_iff sc_type "unknown").0 e))
  | inr n ↦ rw n refl
]

pub typed_by :
    (sc_type : String) (kind : SystemBus × StorageControllerChipset)
    → type_to_bus_and_chipset sc_type ≡ ok kind
    → lookup sc_type controller_kinds ≡ some kind
unfolding type_to_bus_and_chipset kind_in
typed_by sc_type kind h =
    kind_in-lookup controller_kinds sc_type kind (rw (unknown_kind sc_type) at h)
