-- ===== src/Machine/Nic/Read.antt =====
-- The NICs that `GetMachine` reads.
use go_virtualbox.Prelude.{
  ℕ, zero, suc, ◌≤◌, String, Option, none, some, List, [], ◌∷◌, ◌++◌, ◌≡◌, refl, sym, ◌∙◌, arith,
  append, append-nil, append_assoc, lookup, length, ◌==◌, false, ◌⊎◌, inl, inr, ap, Bool-cases,
  eq_iff,
}
use mathlib.Core.Path.{subst}
use go_virtualbox.Go.Outcome.{ok, >>=-eq-ok}
use go_virtualbox.Go.Strconv.{decimal}
use go_virtualbox.Uart.FromInfo.{PropMap}
use go_virtualbox.Machine.Kinds.{Nic}
use go_virtualbox.Machine.Nic.Attached.{NicIs, nic_of-NicIs}
use go_virtualbox.Machine.Nic.{nic_loop, nic_round, nic_of, nic_type_of, nics_of}

-- The NICs from the number `i` on, at most `left` of them: they end at the first number that has no
-- NIC, or whose kind is `none`, and each one is as the properties with its number describe it.
pub data NicsAt (props : PropMap) : ℕ → ℕ → List Nic → Type 0 where
  full : {i : ℕ} → NicsAt props zero i []
  no_kind :
      {left i : ℕ} → lookup (append "nic" (decimal i)) props ≡ none → NicsAt props (suc left) i []
  kind_none :
      {left i : ℕ}
      → lookup (append "nic" (decimal i)) props ≡ some "none"
      → NicsAt props (suc left) i []
  nic_at :
      {left i : ℕ} {nic : Nic} {nics : List Nic}
      → NicIs props i nic
      → NicsAt props left (suc i) nics
      → NicsAt props (suc left) i (nic ∷ nics)

type_none : (o : Option String) → nic_type_of o ≡ none → (o ≡ none) ⊎ (o ≡ some "none")
unfolding nic_type_of
type_none none h = inl refl
type_none (some network) h = elim (Bool-cases (network == "none")) [
  | inl e ↦ inr (ap (λ s. some s) ((eq_iff network "none").0 e))
  | inr n ↦ absurd (cc (n, h))
]

type_some :
    (o : Option String) (network : String)
    → nic_type_of o ≡ some network
    → (o ≡ some network) × ((network == "none") ≡ false)
unfolding nic_type_of
type_some none network h = absurd (cc h)
type_some (some kind) network h = elim (Bool-cases (kind == "none")) [
  | inl e ↦ absurd (cc (e, h))
  | inr n ↦
      let same : kind ≡ network = cc (n, h) in
      (ap (λ s. some s) same, ap (λ s. s == "none") (sym same) ∙ n)
]

nic_ok : {A : Type 0} {x y : A} → ok x ≡ ok y → y ≡ x
nic_ok h = cc

module _ (props : PropMap) (left i : ℕ) (before out : List Nic) where
  nic_round-NicsAt :
      (o : Option String)
      → ((nic : Nic)
          → nic_loop props left (suc i) (before ++ nic ∷ []) ≡ ok out
          → (nics : List Nic) × NicsAt props left (suc i) nics
            × (out ≡ (before ++ nic ∷ []) ++ nics))
      → nic_type_of (lookup (append "nic" (decimal i)) props) ≡ o
      → nic_round
          (nic_of props i)
          (λ nic. nic_loop props left (suc i) (before ++ nic ∷ []))
          before
          o
        ≡ ok out
      → (nics : List Nic) × NicsAt props (suc left) i nics × (out ≡ before ++ nics)
  unfolding nic_round
  nic_round-NicsAt none later e h = elim (type_none _ e) [
    | inl missing ↦ ([], no_kind missing, nic_ok h ∙ sym (append-nil before))
    | inr is_none ↦ ([], kind_none is_none, nic_ok h ∙ sym (append-nil before))
  ]
  nic_round-NicsAt (some network) later e h =
      let (kind, present) = type_some _ network e in
      let (nic, read, h1) = >>=-eq-ok (nic_of props i network) _ h in
      let (nics, at, is) = later nic h1 in
      (
        nic ∷ nics,
        nic_at (nic_of-NicIs props i network nic kind present read) at,
        is ∙ append_assoc before (nic ∷ []) nics,
      )

nic_loop-NicsAt :
    (props : PropMap) (left i : ℕ) (before out : List Nic)
    → nic_loop props left i before ≡ ok out
    → (nics : List Nic) × NicsAt props left i nics × (out ≡ before ++ nics)
unfolding nic_loop
nic_loop-NicsAt props zero i before out h = ([], full, nic_ok h ∙ sym (append-nil before))
nic_loop-NicsAt props (suc left) i before out h =
    nic_round-NicsAt props left i before out _
      (λ nic. nic_loop-NicsAt props left (suc i) (before ++ nic ∷ []) out) refl h

NicsAt-length :
    (props : PropMap) (left i : ℕ) (nics : List Nic) → NicsAt props left i nics → length nics ≤ left
NicsAt-length props _ i _ full = omega arith
NicsAt-length props _ i _ (no_kind e) = omega arith
NicsAt-length props _ i _ (kind_none e) = omega arith
NicsAt-length props _ i _ (nic_at {left = left} {nics = nics} is at) =
    let rest = NicsAt-length props left (suc i) nics at in omega arith

-- The NICs that are read are those of the numbers 1, 2, ... up to the first number without a NIC,
-- each as the properties describe it, and they are at most four.
pub nics_of-NicsAt :
    (props : PropMap) (nics : List Nic)
    → nics_of props ≡ ok nics
    → NicsAt props 4 1 nics × (length nics ≤ 4)
unfolding nics_of
nics_of-NicsAt props nics h =
    let (found, at, is) = nic_loop-NicsAt props 4 1 [] nics h in
    let here = subst (NicsAt props 4 1) (sym is) at in (here, NicsAt-length props 4 1 nics here)
