-- ===== src/Guest/Waiter.antt =====
-- guestprop.go: `WaitGuestProperties`, whose goroutine reports changes until the caller closes `done`
-- or a wait fails. A step is one of the goroutine, with the reader that takes what it sends, or the
-- caller's `close(done)`.
pub mod Ends
pub mod Moves
use go_virtualbox.Prelude.{ℕ, suc, ◌-◌, String, Bool, true, false, List, [], ◌∷◌, ◌++◌, ◌≡◌}
use go_virtualbox.Go.Outcome.{ok, err, Error}
use go_virtualbox.Vbcmd.{Host, World}
use go_virtualbox.Guest.{GuestProperty, wait_guest_property}

-- where the goroutine is: in WaitGuestProperty, in the select with a property, between the deferred
-- calls wg.Done() and close(props), or returned
pub data Phase : Type 0 where
  waiting : Phase
  offering : GuestProperty → Phase
  leaving returned : Phase

-- `sent` is what the reader of the channel took so far, `closed` says that the channel is closed,
-- `active` is the counter of the WaitGroup, and `done` says that the caller closed that channel.
pub record Waiter (S : Type 0) : Type 0 where
  pub phase : Phase
  pub world : World S
  pub sent : List GuestProperty
  pub closed : Bool
  pub active : ℕ
  pub done : Bool

module _ {S : Type 0} (host : Host) (vm pattern : String) where
  -- the call: wg.Add(1), and the goroutine starts
  abbrev pub wait_guest_properties : World S → ℕ → Waiter S
  wait_guest_properties world active = record {
    phase = waiting;
    world = world;
    sent = [];
    closed = false;
    active = suc active;
    done = false;
  }

  -- the deferred wg.Done()
  abbrev pub leave : Waiter S → Waiter S
  leave w = record w { phase = leaving; active = w.active - 1 }

  -- the steps of the goroutine that need no reader
  pub data Alone (w : Waiter S) : Waiter S → Type 0 where
    reports :
        {name value : String} {after : World S}
        → w.phase ≡ waiting
        → wait_guest_property vm pattern host w.world ≡ (ok (name, value), after)
        → Alone w
            (record w { phase = offering (record { name = name; value = value }); world = after })
    fails :
        {e : Error} {after : World S}
        → w.phase ≡ waiting
        → wait_guest_property vm pattern host w.world ≡ (err e, after)
        → Alone w (leave (record w { world = after }))
    quits : {prop : GuestProperty} → w.phase ≡ offering prop → w.done ≡ true → Alone w (leave w)
    ends : w.phase ≡ leaving → Alone w (record w { phase = returned; closed = true })

  pub data Step (w : Waiter S) : Waiter S → Type 0 where
    alone : {v : Waiter S} → Alone w v → Step w v
    sends :
        {prop : GuestProperty}
        → w.phase ≡ offering prop
        → Step w (record w { phase = waiting; sent = w.sent ++ prop ∷ [] })
    closes : w.done ≡ false → Step w (record w { done = true })

  pub data Reach (start : Waiter S) : Waiter S → Type 0 where
    begin : Reach start start
    later : {v w : Waiter S} → Reach start v → Step v w → Reach start w

  -- steps that need neither a reader nor the caller
  pub data Run : Waiter S → Waiter S → Type 0 where
    stay : {w : Waiter S} → Run w w
    go_on : {u v w : Waiter S} → Alone u v → Run v w → Run u w
