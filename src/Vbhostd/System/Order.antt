-- ===== src/Vbhostd/System/Order.antt =====
-- cmd/vbhostd: what the loop over `agg` gets of each machine, and when it ends.
use go_virtualbox.Prelude.{
  ℕ, ◌≤◌, Bool, true, false, not, ◌||◌, List, [], ◌∷◌, ◌++◌, ◌≡◌, refl, sym, ap, ◌∙◌, arith, ◌==◌,
  eq_iff, All, append-nil, tally, Bool-cases, inl, inr,
}
use mathlib.Core.Logic.{ite, if_pos, if_neg}
use native.Mathlib.Decide.{ℕ_discrete}
use go_virtualbox.Go.Outcome.{Outcome, ok}
use go_virtualbox.Vbcmd.{Host, World}
use go_virtualbox.Guest.{GuestProperty}
use go_virtualbox.Guest.Waiter.{Phase, waiting, offering, leaving, returned}
use go_virtualbox.Vbhostd.{Line, handle}
use go_virtualbox.Vbhostd.Allowed.{open_value-Runs}
use go_virtualbox.Vbhostd.System.{
  Forwarder, receiving, ended, passing, Watch, Main, starting, looping, closing, selecting, exited,
  completed, timeout, panicked, State, blank,
}

-- what the loop took of the machine at a place, in order
abbrev pub taken : ℕ → List (ℕ × GuestProperty) → List GuestProperty
taken i [] = []
taken i ((j, prop) ∷ seen) = ite (ℕ_discrete j i) (prop ∷ taken i seen) (taken i seen)

-- what a forwarder has received and not passed on yet
abbrev pub in_hand : Forwarder → List GuestProperty
in_hand receiving = []
in_hand (passing prop) = prop ∷ []
in_hand ended = []

-- does the group count the waiter?
abbrev pub weight_of : Phase → ℕ
weight_of waiting = 1
weight_of (offering prop) = 1
weight_of leaving = 0
weight_of returned = 0

abbrev pub counted : Watch → ℕ
counted w = weight_of w.phase

abbrev pub is_returned : Phase → Bool
is_returned waiting = false
is_returned (offering prop) = false
is_returned leaving = false
is_returned returned = true

-- the properties after which the loop goes on
abbrev pub goes_on : GuestProperty → Bool
goes_on prop = not (prop.name == "vbhostd/error" || prop.name == "")

abbrev pub AllGoOn : List (ℕ × GuestProperty) → Type 0
AllGoOn seen = All (λ (i, prop). goes_on prop ≡ true) seen

-- The last one, and only this one, ends the loop.
pub record HasEnded (seen : List (ℕ × GuestProperty)) : Type 0 where
  pub before : List (ℕ × GuestProperty)
  pub place : ℕ
  pub last : GuestProperty
  pub split : seen ≡ before ++ (place, last) ∷ []
  pub went_on : AllGoOn before
  pub stops : goes_on last ≡ false

-- for what was seen, the channel `wait` and the counter of the group
abbrev pub MainAt : Main → List (ℕ × GuestProperty) → Bool → ℕ → Type 0
MainAt (starting vms) seen wait active = (seen ≡ []) × (wait ≡ false)
MainAt looping seen wait active = AllGoOn seen × (wait ≡ false)
MainAt (closing places) seen wait active = HasEnded seen × (wait ≡ false)
MainAt selecting seen wait active = HasEnded seen × (wait ≡ true → active ≡ 0)
MainAt (exited completed) seen wait active = HasEnded seen × (active ≡ 0)
MainAt (exited timeout) seen wait active = HasEnded seen
MainAt panicked seen wait active = ⊥

-- What the waiter sent is what the loop took and what the forwarder holds; the channel is closed when
-- the waiter has returned, and the forwarder ends after it.
pub record WatchAt (seen : List (ℕ × GuestProperty)) (i : ℕ) (w : Watch) : Type 0 where
  pub order : w.sent ≡ taken i seen ++ in_hand w.forwarder
  pub shut : w.closed ≡ is_returned w.phase
  pub after : w.forwarder ≡ ended → w.closed ≡ true

pub record IsSound (s : State) : Type 0 where
  pub each : (i : ℕ) → WatchAt s.seen i (s.watch i)
  pub count : s.active ≡ tally counted s.size s.watch
  pub fresh : (i : ℕ) → s.size ≤ i → s.watch i ≡ blank
  pub stage : MainAt s.main s.seen s.wait s.active

taken-append :
    (i j : ℕ) (prop : GuestProperty) (seen : List (ℕ × GuestProperty))
    → taken i (seen ++ (j, prop) ∷ []) ≡ taken i seen ++ ite (ℕ_discrete j i) (prop ∷ []) []
taken-append i j prop [] = ground arith
taken-append i j prop ((k, other) ∷ seen) = ground (arith, taken-append i j prop seen)

pub taken_same :
    (i : ℕ) (prop : GuestProperty) (seen : List (ℕ × GuestProperty))
    → taken i (seen ++ (i, prop) ∷ []) ≡ taken i seen ++ prop ∷ []
taken_same i prop seen =
    taken-append i i prop seen
    ∙ ap (λ l. taken i seen ++ l) (if_pos (ℕ_discrete i i) refl (prop ∷ []) [])

pub taken_other :
    (i j : ℕ) (prop : GuestProperty) (seen : List (ℕ × GuestProperty))
    → ¬ (j ≡ i)
    → taken i (seen ++ (j, prop) ∷ []) ≡ taken i seen
taken_other i j prop seen n =
    taken-append i j prop seen
    ∙ ap (λ l. taken i seen ++ l) (if_neg (ℕ_discrete j i) n (prop ∷ []) [])
    ∙ append-nil (taken i seen)

-- The test of `main` is the one of the switch.
handle-ok :
    (prop : GuestProperty) (host : Host) (w : World (List Line))
    → (handle prop host w).0 ≡ ok (goes_on prop)
unfolding handle
handle-ok prop host w = elim (Bool-cases (prop.name == "vbhostd/open")) [
  | inl name ↦
      let named : prop.name ≡ "vbhostd/open" = (eq_iff _ _).0 name in
      rw (name, (open_value-Runs prop.value host w).result) (rw named refl)
  | inr other ↦ elim (Bool-cases (prop.name == "vbhostd/error")) [
    | inl error ↦ rw (other, error) refl
    | inr fine ↦ elim (Bool-cases (prop.name == "")) [
      | inl empty ↦ rw (other, fine, empty) refl
      | inr more ↦ rw (other, fine, more) refl
    ]
  ]
]

pub handle-goes_on :
    (prop : GuestProperty) (host : Host) (w : World (List Line)) {after : World (List Line)}
    {more : Bool}
    → handle prop host w ≡ (ok more, after)
    → goes_on prop ≡ more
handle-goes_on prop host w e =
    let same : ◌≡◌ {A = Outcome Bool} (ok (goes_on prop)) (ok _) =
      sym (handle-ok prop host w) ∙ ap (λ r. r.0) e in
    cc
