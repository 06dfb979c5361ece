-- ===== src/Guest/Waiter/Ends.antt =====
-- guestprop.go: what the waiter sent is what was reported, and why it returned.
use mathlib.Core.Path.{subst}
use go_virtualbox.Prelude.{ℕ, suc, String, true, false, List, [], ◌∷◌, ◌++◌, ◌≡◌, refl, arith}
use go_virtualbox.Go.Outcome.{ok, err, Error}
use go_virtualbox.Vbcmd.{Host, World}
use go_virtualbox.Guest.{GuestProperty, wait_guest_property}
use go_virtualbox.Guest.Waiter.{
  Phase, waiting, offering, leaving, returned, Waiter, wait_guest_properties, Step, alone, reports,
  fails, sends, quits, ends, closes, Reach, begin, later,
}

module _ {S : Type 0} (host : Host) (vm pattern : String) where
  -- The calls of WaitGuestProperty one after the other gave these properties and led to this world.
  pub data Reported (start : World S) : List GuestProperty → World S → Type 0 where
    nothing : Reported start [] start
    one_more :
        {props : List GuestProperty} {before after : World S} {name value : String}
        → Reported start props before
        → wait_guest_property vm pattern host before ≡ (ok (name, value), after)
        → Reported start (props ++ record { name = name; value = value } ∷ []) after

  -- Why the goroutine returned: the last wait failed, and all that was reported was sent, or the
  -- caller closed `done`, and the last property reported was not sent.
  pub data Reason (start : World S) (w : Waiter S) : Type 0 where
    by_error :
        (before : World S) (e : Error)
        → Reported start w.sent before
        → wait_guest_property vm pattern host before ≡ (err e, w.world)
        → Reason start w
    by_done :
        (prop : GuestProperty)
        → Reported start (w.sent ++ prop ∷ []) w.world
        → w.done ≡ true
        → Reason start w

  abbrev pub SoundAt : World S → ℕ → Waiter S → Phase → Type 0
  SoundAt start others w waiting =
      Reported start w.sent w.world × (w.closed ≡ false) × (w.active ≡ suc others)
  SoundAt start others w (offering prop) =
      Reported start (w.sent ++ prop ∷ []) w.world × (w.closed ≡ false) × (w.active ≡ suc others)
  SoundAt start others w leaving = Reason start w × (w.closed ≡ false) × (w.active ≡ others)
  SoundAt start others w returned = Reason start w × (w.closed ≡ true) × (w.active ≡ others)

  -- in each phase: what was reported is what was sent and the property that is offered
  abbrev pub IsSound : World S → ℕ → Waiter S → Type 0
  IsSound start others w = SoundAt start others w w.phase

  done_later :
      (start : World S) (w : Waiter S) → Reason start w → Reason start (record w { done = true })
  done_later start w (by_error before e all told) = by_error before e all told
  done_later start w (by_done prop all h) = by_done prop all refl

  closes-SoundAt :
      (start : World S) (others : ℕ) (w : Waiter S) (phase : Phase)
      → SoundAt start others w phase
      → SoundAt start others (record w { done = true }) phase
  closes-SoundAt start others w waiting h = h
  closes-SoundAt start others w (offering prop) h = h
  closes-SoundAt start others w leaving (why, shut, count) = (done_later start w why, shut, count)
  closes-SoundAt start others w returned (why, shut, count) = (done_later start w why, shut, count)

  Step-IsSound :
      (start : World S) (others : ℕ) {v w : Waiter S}
      → IsSound start others v
      → Step host vm pattern v w
      → IsSound start others w
  Step-IsSound start others {v} sound (alone (reports here told)) =
      let (all, open_, one) = subst (SoundAt start others v) here sound in
      (one_more all told, open_, one)
  Step-IsSound start others {v} sound (alone (fails here told)) =
      let (all, open_, one) = subst (SoundAt start others v) here sound in
      (by_error _ _ all told, open_, omega (arith, one))
  Step-IsSound start others {v} sound (sends here) = subst (SoundAt start others v) here sound
  Step-IsSound start others {v} sound (alone (quits here done)) =
      let (all, open_, one) = subst (SoundAt start others v) here sound in
      (by_done _ all done, open_, omega (arith, one))
  Step-IsSound start others {v} sound (alone (ends here)) =
      let (why, open_, one) = subst (SoundAt start others v) here sound in (reason why, refl, one)
    where
      reason : Reason start v → Reason start (record v { phase = returned; closed = true })
      reason (by_error before e all told) = by_error before e all told
      reason (by_done prop all h) = by_done prop all h
  Step-IsSound start others {v} sound (closes h) = closes-SoundAt start others v v.phase sound

  -- At every moment the reader of the channel has got exactly the changes that the waits reported,
  -- in their order, but for the one that is being offered; the channel is open and the group counts
  -- the goroutine while it runs. It returns only when a wait failed, or when the caller closed
  -- `done`, and then at most the last change is lost and the channel is closed. The other members
  -- of the group stand still.
  pub Reach-IsSound :
      (start : World S) (others : ℕ) {w : Waiter S}
      → Reach host vm pattern (wait_guest_properties host vm pattern start others) w
      → IsSound start others w
  Reach-IsSound start others begin = (nothing, refl, refl)
  Reach-IsSound start others (later reach step) =
      Step-IsSound start others (Reach-IsSound start others reach) step
