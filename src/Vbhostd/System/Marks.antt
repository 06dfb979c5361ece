-- ===== src/Vbhostd/System/Marks.antt =====
-- cmd/vbhostd: the channels `done[vm]`, counted where they are closed and where they are still to be.
use mathlib.Core.Logic.{ite, if_pos, if_neg}
use native.Mathlib.Decide.{ℕ_discrete}
use go_virtualbox.Prelude.{
  ℕ, ◌+◌, ◌≤◌, String, Bool, true, false, none, List, [], ◌∷◌, ◌≡◌, refl, arith, ◌==◌, Dict, lookup,
  insert, Bool-cases, inl, inr,
}
use go_virtualbox.Vbhostd.System.{
  Main, starting, looping, closing, selecting, exited, panicked, State, Visit, here, there,
  places_of,
}

abbrev pub same : ℕ → ℕ → ℕ
same j i = ite (ℕ_discrete j i) 1 0

pub same_self : (i : ℕ) → same i i ≡ 1
same_self i = if_pos (ℕ_discrete i i) refl 1 0

pub same_eq : (i j : ℕ) → i ≡ j → same i j ≡ 1
same_eq i j e = if_pos (ℕ_discrete i j) e 1 0

pub same_ne : (i j : ℕ) → ¬ (i ≡ j) → same i j ≡ 0
same_ne i j n = if_neg (ℕ_discrete i j) n 1 0

-- how often a place is in a list
abbrev pub times : ℕ → List ℕ → ℕ
times i [] = 0
times i (j ∷ js) = same j i + times i js

-- is the channel closed?
abbrev pub told : Bool → ℕ
told true = 1
told false = 0

-- the channels that `main` has still to close
abbrev pub open_places : Main → Dict ℕ → List ℕ
open_places (starting vms) done = places_of done
open_places looping done = places_of done
open_places (closing places) done = places
open_places selecting done = []
open_places (exited how) done = []
open_places panicked done = []

-- closed or still to be closed
abbrev pub marks : State → ℕ → ℕ
marks s i = told (s.watch i).done + times i (open_places s.main s.done)

-- Each channel is at most one of both, and there are only those of the machines.
pub record IsTold (s : State) : Type 0 where
  pub once : (i : ℕ) → marks s i ≤ 1
  pub outside : (i : ℕ) → s.size ≤ i → marks s i ≡ 0

pub Visit-times :
    {i : ℕ} {places rest : List ℕ}
    → Visit i places rest
    → (j : ℕ) → times j places ≡ same i j + times j rest
Visit-times here j = refl
Visit-times (there visit) j = omega (arith, Visit-times visit j)

-- A new place is put into the map, in place of the one of the same name when there is one.
pub insert-times-le :
    (key : String) (place i : ℕ) (m : Dict ℕ)
    → times i (places_of (insert key place m)) ≤ times i (places_of m) + same place i
unfolding insert
insert-times-le key place i [] = omega arith
insert-times-le key place i ((other, old) ∷ m) = elim (Bool-cases (other == key)) [
  | inl e ↦ rw e (omega arith)
  | inr n ↦ rw n (omega (arith, insert-times-le key place i m))
]

pub insert-times :
    (key : String) (place i : ℕ) (m : Dict ℕ)
    → lookup key m ≡ none
    → times i (places_of (insert key place m)) ≡ times i (places_of m) + same place i
unfolding insert lookup
insert-times key place i [] h = omega arith
insert-times key place i ((other, old) ∷ m) h = elim (Bool-cases (other == key)) [
  | inl e ↦ cc
  | inr n ↦ rw n (omega (arith, insert-times key place i m (rw n at h)))
]
