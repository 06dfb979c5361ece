-- ===== src/Guest/Waiter/Moves.antt =====
-- guestprop.go: the waiter returns once it is told to.
use go_virtualbox.Prelude.{
  String, Bool, true, false, Option, none, some, List, ◌≡◌, refl, ◌⊎◌, inl, inr, if◌then◌else◌,
}
use go_virtualbox.Go.Outcome.{Outcome, ok, err, Error}
use go_virtualbox.Go.Regexp.{Captures}
use go_virtualbox.Vbcmd.{Exec, Host, World, proceed, check, manage, run_out, run_out_with}
use go_virtualbox.Guest.{GuestProperty, wait_guest_property, wait_in_guest, change_of}
use go_virtualbox.Guest.Waiter.{
  Phase, waiting, offering, leaving, returned, Waiter, leave, Alone, reports, fails, quits, ends,
  Run, stay, go_on,
}

-- the call does not panic
data Returns {S A : Type 0} : Outcome A × World S → Type 0 where
  result : (a : A) (w : World S) → Returns (ok a, w)
  failure : (e : Error) (w : World S) → Returns (err e, w)

-- no world makes the call panic
abbrev NeverPanics : {S A : Type 0} → Host → Exec S A → Type 0
NeverPanics {S} host m = (w : World S) → Returns (m host w)

proceed-Returns :
    {S A B : Type 0} {r : Outcome A × World S} (f : A → Exec S B) (host : Host)
    → Returns r
    → ((a : A) (w : World S) → Returns (f a host w))
    → Returns (proceed r f host)
proceed-Returns f host (result a w) next = next a w
proceed-Returns f host (failure e w) next = failure e w

check-Returns :
    {S A : Type 0} (o : Option Error) (a : A) (host : Host) (w : World S)
    → Returns (check o a host w)
check-Returns none a host w = result a w
check-Returns (some e) a host w = failure e w

either-NeverPanics :
    {S A : Type 0} (host : Host) (b : Bool) (m n : Exec S A)
    → NeverPanics host m
    → NeverPanics host n
    → NeverPanics host (if b then m else n)
either-NeverPanics host true m n hm hn = hm
either-NeverPanics host false m n hm hn = hn

run_out-NeverPanics :
    {S : Type 0} (args : List String) (host : Host) → NeverPanics {S = S} host (run_out args)
unfolding run_out manage run_out_with
run_out-NeverPanics args host w = check-Returns _ _ host _

wait_in_guest-NeverPanics :
    {S : Type 0} (prop : String) (host : Host) → NeverPanics {S = S} host (wait_in_guest prop)
unfolding wait_in_guest manage run_out_with
wait_in_guest-NeverPanics prop host w =
    either-NeverPanics host host.manage.guest _ _ (λ v. check-Returns _ tt host _)
      (λ v. result tt v) w

change_of-Returns : {S : Type 0} (o : Option Captures) (w : World S) → Returns (change_of o, w)
unfolding change_of
change_of-Returns none w = failure _ w
change_of-Returns (some caps) w = result _ w

-- WaitGuestProperty never panics.
wait_guest_property-NeverPanics :
    {S : Type 0} (vm prop : String) (host : Host)
    → NeverPanics {S = S} host (wait_guest_property vm prop)
unfolding wait_guest_property
wait_guest_property-NeverPanics vm prop host w =
    proceed-Returns _ host (wait_in_guest-NeverPanics prop host w) (λ a v.
      proceed-Returns _ host (run_out-NeverPanics _ host v) (λ out u. change_of-Returns _ u))

module _ {S : Type 0} (host : Host) (vm pattern : String) where
  -- it returns by steps of its own, and the channel is closed then
  pub record Leaves (w : Waiter S) : Type 0 where
    pub last : Waiter S
    pub run : Run host vm pattern w last
    pub is_returned : last.phase ≡ returned
    pub is_closed : last.closed ≡ true

  leaving-Leaves : (w : Waiter S) → w.phase ≡ leaving → Leaves w
  leaving-Leaves w here = record {
    last = record w { phase = returned; closed = true };
    run = go_on (ends here) stay;
    is_returned = refl;
    is_closed = refl;
  }

  first-Leaves : {w v : Waiter S} → Alone host vm pattern w v → Leaves v → Leaves w
  first-Leaves step leaves = record {
    last = leaves.last;
    run = go_on step leaves.run;
    is_returned = leaves.is_returned;
    is_closed = leaves.is_closed;
  }

  offering-Leaves :
      (w : Waiter S) (prop : GuestProperty) → w.phase ≡ offering prop → w.done ≡ true → Leaves w
  offering-Leaves w prop here done =
      first-Leaves (quits here done) (leaving-Leaves (leave host vm pattern w) refl)

  waiting-Leaves :
      (w : Waiter S) {r : Outcome (String × String) × World S}
      → w.phase ≡ waiting
      → w.done ≡ true
      → wait_guest_property vm pattern host w.world ≡ r
      → Returns r
      → Leaves w
  waiting-Leaves w here done told (result (name, value) after) =
      first-Leaves (reports here told) (offering-Leaves _ _ refl done)
  waiting-Leaves w here done told (failure e after) =
      first-Leaves (fails here told) (leaving-Leaves _ refl)

  phase-Leaves :
      (w : Waiter S) (phase : Phase)
      → w.phase ≡ phase
      → w.done ≡ true
      → (phase ≡ returned) ⊎ Leaves w
  phase-Leaves w waiting here done =
      inr
        (waiting-Leaves w here done refl (wait_guest_property-NeverPanics vm pattern host w.world))
  phase-Leaves w (offering prop) here done = inr (offering-Leaves w prop here done)
  phase-Leaves w leaving here done = inr (leaving-Leaves w here)
  phase-Leaves w returned here done = inl refl

  -- Once the caller has closed `done`, a waiter that has not returned can do so by steps of its own,
  -- when the wait that runs returns: it needs no reader, and the channel is closed at the end.
  pub done-Leaves : (w : Waiter S) → w.done ≡ true → (w.phase ≡ returned) ⊎ Leaves w
  done-Leaves w done = phase-Leaves w w.phase refl done
