-- ===== src/Vbhostd/System/Sound.antt =====
-- cmd/vbhostd: every step keeps the order of the properties and the count of the group.
mod Watches
use mathlib.Core.Path.{subst}
use go_virtualbox.Prelude.{
  ℕ, zero, suc, ◌+◌, ◌-◌, ◌≤◌, ◌<◌, String, Bool, true, false, Dict, List, [], ◌∷◌, ◌++◌, ◌≡◌, refl,
  sym, ap, ◌∙◌, arith, All-append, append-nil, append_assoc, update, update_all, update_other,
  tally, tally-update, tally_next, tally_none,
}
use native.Mathlib.Decide.{ℕ_discrete}
use go_virtualbox.Go.Outcome.{ok}
use go_virtualbox.Vbcmd.{Host, World}
use go_virtualbox.Guest.{GuestProperty}
use go_virtualbox.Guest.Waiter.{
  Phase, waiting, offering, leaving, returned, Waiter, Alone, reports, fails, quits, ends,
  wait_guest_properties,
}
use go_virtualbox.Vbhostd.{Line, handle}
use go_virtualbox.Vbhostd.System.{
  Forwarder, receiving, ended, passing, Watch, Main, starting, looping, closing, selecting, exited,
  completed, timeout, panicked, State, pattern, waiter_at, with_waiter, hand_over, start_watch,
  watch_of, blank, initial, Step, starts, loops, waits, sends, finishes, handles, leaves, closes,
  closes_again, selects, completes, exits_completed, exits_timeout, Reach, begin, later,
}
use go_virtualbox.Vbhostd.System.Marks.{IsTold}
use go_virtualbox.Vbhostd.System.Told.{Reach-IsTold, Visit-below, Visit-open}
use go_virtualbox.Vbhostd.System.Order.{
  taken, in_hand, counted, weight_of, is_returned, goes_on, AllGoOn, HasEnded, MainAt, WatchAt,
  IsSound, taken_same, taken_other, handle-goes_on,
}
use go_virtualbox.Vbhostd.System.Sound.Watches.{
  Alone-Kept, hand_over-WatchAt, finish-WatchAt, take-WatchAt, other-WatchAt, done-WatchAt,
}

-- A write at the place of a machine.
put-IsSound :
    {s : State} {world : World (List Line)} {active : ℕ} {done : Dict ℕ}
    {seen : List (ℕ × GuestProperty)} {wait : Bool} {main : Main} (i : ℕ) (w : Watch)
    → IsSound s
    → i < s.size
    → ((j : ℕ) → ¬ (i ≡ j) → WatchAt seen j (s.watch j))
    → WatchAt seen i w
    → active ≡ (s.active + counted w) - counted (s.watch i)
    → MainAt main seen wait active
    → IsSound (record {
      world = world;
      active = active;
      size = s.size;
      watch = update s.watch i w;
      done = done;
      seen = seen;
      wait = wait;
      main = main;
    })
put-IsSound {s} {seen = seen} i w sound below others at active stage = record {
  each = update_all (WatchAt seen) s.watch i w others at;
  count = omega (arith, active, sound.count, tally-update counted s.size s.watch i w below);
  fresh = λ j above. update_other s.watch i j w (λ e. omega arith) ∙ sound.fresh j above;
  stage = stage;
}

-- The group only gets smaller while a machine runs.
fewer-MainAt :
    (main : Main) (seen : List (ℕ × GuestProperty)) (wait : Bool) {active fewer : ℕ}
    → fewer ≤ active
    → MainAt main seen wait active
    → MainAt main seen wait fewer
fewer-MainAt (starting vms) seen wait h at = at
fewer-MainAt looping seen wait h at = at
fewer-MainAt (closing places) seen wait h at = at
fewer-MainAt selecting seen wait h (end, none_left) = (end, λ e. omega (arith, none_left e))
fewer-MainAt (exited completed) seen wait h (end, none_left) = (end, omega arith)
fewer-MainAt (exited timeout) seen wait h at = at
fewer-MainAt panicked seen wait h at = absurd at

main_at : {s : State} {main : Main} → s.main ≡ main → IsSound s → MainAt main s.seen s.wait s.active
main_at {s} e sound = subst (λ m. MainAt m s.seen s.wait s.active) e sound.stage

stays_at :
    (s : State) {main : Main} (seen : List (ℕ × GuestProperty)) (wait : Bool) (active : ℕ)
    → s.main ≡ main
    → MainAt main seen wait active
    → MainAt s.main seen wait active
stays_at s seen wait active e = subst (λ m. MainAt m seen wait active) (sym e)

-- The same machines, and `main` elsewhere.
move-IsSound :
    {s : State} {world : World (List Line)} {wait : Bool} {main : Main}
    → IsSound s
    → MainAt main s.seen wait s.active
    → IsSound (record s { world = world; wait = wait; main = main })
move-IsSound sound stage = record {
  each = sound.each;
  count = sound.count;
  fresh = sound.fresh;
  stage = stage;
}

module _ (host : Host) where
  start-IsSound :
      {s : State} {vms : List String} (vm : String)
      → s.main ≡ starting (vm ∷ vms)
      → IsSound s
      → IsSound (record (start_watch host vm s) { main = starting vms })
  start-IsSound {s} vm e sound = record {
    each =
        update_all (WatchAt s.seen) s.watch s.size _ (λ j n. sound.each j)
          (let at =
              subst (WatchAt s.seen s.size) (sound.fresh s.size (omega arith))
                (sound.each s.size) in
            record { order = at.order; shut = refl; after = λ n. cc });
    count = omega (
      arith,
      sound.count,
      tally_next counted s.size s.watch
          (watch_of vm (wait_guest_properties host vm pattern s.world s.active)),
    );
    fresh =
        λ j above. update_other s.watch s.size j _ (λ e. omega arith) ∙ sound.fresh j (omega arith);
    stage = main_at e sound;
  }

  Step-IsSound : {s t : State} → Step host s t → IsTold s → IsSound s → IsSound t
  Step-IsSound (starts e) known sound = start-IsSound _ e sound
  Step-IsSound (loops e) known sound =
      let (none_seen, open_) = main_at e sound in
      move-IsSound sound (subst AllGoOn (sym none_seen) tt, open_)
  Step-IsSound {s} (waits i live below step) known sound =
      let kept = Alone-Kept host s s.seen i (s.watch i) step (sound.each i) in
      put-IsSound i _ sound below (λ j n. sound.each j) kept.holds kept.counts
        (fewer-MainAt s.main s.seen s.wait kept.fewer sound.stage)
  Step-IsSound {s} (sends i live below offers e) known sound =
      put-IsSound i _ sound below (λ j n. sound.each j) (hand_over-WatchAt (sound.each i) offers e)
        (omega (arith, ap weight_of offers)) sound.stage
  Step-IsSound {s} (finishes i live below shut e) known sound =
      put-IsSound i _ sound below (λ j n. sound.each j) (finish-WatchAt (sound.each i) shut e)
        (omega arith) sound.stage
  Step-IsSound {s} (handles {prop} i e below holds told) known sound =
      let (all, open_) = main_at e sound in
      put-IsSound i _ sound below (λ j n. other-WatchAt (sound.each j) prop n)
        (take-WatchAt (sound.each i) holds) (omega arith)
        (stays_at s _ s.wait s.active e
          (All-append _ s.seen _ all (handle-goes_on prop host s.world told, tt), open_))
  Step-IsSound {s} (leaves {prop} i e below holds told) known sound =
      let (all, open_) = main_at e sound in
      put-IsSound i _ sound below (λ j n. other-WatchAt (sound.each j) prop n)
        (take-WatchAt (sound.each i) holds) (omega arith)
        (
          record {
            before = s.seen;
            place = i;
            last = prop;
            split = refl;
            went_on = all;
            stops = handle-goes_on prop host s.world told;
          },
          open_,
        )
  Step-IsSound {s} (closes i e visit open_) known sound =
      put-IsSound i _ sound (Visit-below known e visit) (λ j n. sound.each j)
        (done-WatchAt (sound.each i)) (omega arith) (main_at e sound)
  Step-IsSound (closes_again i e visit shut) known sound = absurd (Visit-open known e visit shut)
  Step-IsSound (selects e) known sound =
      let (end, open_) = main_at e sound in move-IsSound sound (end, λ wrong. cc)
  Step-IsSound {s} (completes e none_left) known sound =
      move-IsSound sound (stays_at s s.seen true s.active e ((main_at e sound).0, λ _. none_left))
  Step-IsSound (exits_completed e told) known sound =
      let (end, none_left) = main_at e sound in move-IsSound sound (end, none_left told)
  Step-IsSound (exits_timeout e) known sound = move-IsSound sound (main_at e sound).0

  -- In every run of vbhostd and for each machine, what the waiter sent is what the loop took of it,
  -- in the same order, and the one property its forwarder may hold: none is lost, changed or read
  -- twice. The group counts the waiters that run. The loop ends at the first property that says so;
  -- no channel is closed twice; and when `main` exits because the group is done, no waiter runs.
  pub State-IsSound :
      {vms : List String} {world : World (List Line)} {s : State}
      → Reach host (initial vms world) s
      → IsSound s
  State-IsSound begin = record {
    each = λ i. record { order = refl; shut = refl; after = λ n. cc };
    count = sym (tally_none counted 0 _ (λ i below. absurd (omega (arith, below))));
    fresh = λ i above. refl;
    stage = (refl, refl);
  }
  State-IsSound (later reach step) =
      Step-IsSound step (Reach-IsTold host reach) (State-IsSound reach)
