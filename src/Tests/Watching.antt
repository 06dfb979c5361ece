-- ===== src/Tests/Watching.antt =====
-- cmd/vbhostd with one machine, from its start on.
use go_virtualbox.Prelude.{
  ℕ, zero, suc, true, ◌<◌, String, none, List, [], ◌∷◌, ◌++◌, ◌≡◌, refl, arith,
}
use go_virtualbox.Go.Outcome.{ok}
use go_virtualbox.Go.Strings.{Lacks-lacks}
use go_virtualbox.Vbcmd.{Host, World, Invocation}
use go_virtualbox.Guest.{GuestProperty, wait_guest_property}
use go_virtualbox.Guest.Changed.{change_shown, wait_guest_property-shown}
use go_virtualbox.Guest.Waiter.{offering, leaving, returned, reports, fails, ends}
use go_virtualbox.Vbhostd.{Line, reported}
use go_virtualbox.Vbhostd.System.{
  State, starting, looping, closing, pattern, start_watch, put, put_waiter, waiter_at, hand_over,
  take_from, initial, Step, starts, loops, waits, sends, leaves, finishes, Reach, begin, later,
  ended,
}
use go_virtualbox.Vbhostd.System.Order.{IsSound}
use go_virtualbox.Vbhostd.System.Sound.{State-IsSound}
use go_virtualbox.Vbhostd.System.Exits.{Completes, still_closing, Reach-Completes}
use go_virtualbox.Vbcmd.Logs.{Adds}
use go_virtualbox.Vbhostd.System.Harmless.{Harmless, Reach-Harmless}
use go_virtualbox.Vbhostd.System.Stuck.{Over, looping-stuck}
use go_virtualbox.Tests.Hosts.{vboxmanage, without_vboxmanage}

-- each wait tells that the guest gives up
abbrev ending_host : Host
ending_host = record {
  os = "linux";
  manage = vboxmanage;
  stat = λ path. none;
  dir = λ path. path;
  reply = λ log inv. record {
    stdout = change_shown "vbhostd/error" "gone" " ";
    stderr = "";
    failure = none;
  };
}

abbrev world : World (List Line)
world = record { log = []; this = [] }

abbrev wait_for_vm : Invocation
wait_for_vm = record {
  program = "VBoxManage";
  argv = "guestproperty" ∷ "wait" ∷ "vm" ∷ "vbhostd/*" ∷ [];
}

abbrev told_world : World (List Line)
told_world = record { log = wait_for_vm ∷ []; this = [] }

abbrev gone : GuestProperty
gone = record { name = "vbhostd/error"; value = "gone" }

told :
    wait_guest_property "vm" pattern ending_host world ≡ (ok ("vbhostd/error", "gone"), told_world)
unfolding go_virtualbox.Vbcmd.prepare go_virtualbox.Go.Strings.lacks
told =
    wait_guest_property-shown "vm" pattern "vbhostd/error" "gone" " " ending_host world (λ e. refl)
      refl refl (Lacks-lacks b',' "vbhostd/error" refl) (Lacks-lacks b',' "gone" refl)
      (Lacks-lacks 10 " " refl)

abbrev at_start : State
at_start = initial ("vm" ∷ []) world

abbrev at_first : State
at_first = record (start_watch ending_host "vm" at_start) { main = starting [] }

abbrev at_loop : State
at_loop = record at_first { main = looping }

abbrev at_change : State
at_change =
    put_waiter at_loop 0
      (record (waiter_at at_loop (at_loop.watch 0)) { phase = offering gone; world = told_world })

abbrev at_hand_over : State
at_hand_over = put at_change 0 (hand_over gone (at_change.watch 0))

abbrev at_end : State
at_end = record (take_from at_hand_over 0 gone) {
  world = record told_world { this = reported "gone" ∷ [] };
  main = closing (0 ∷ []);
}

to_end : Reach ending_host at_start at_end
unfolding native.Mathlib.Decide.ℕ_discrete go_virtualbox.Vbhostd.handle go_virtualbox.Prelude.insert
to_end =
    later
      (later
        (later (later (later begin (starts refl)) (loops refl))
          (waits 0 refl (omega arith) (reports refl told)))
        (sends 0 refl (omega arith) refl refl))
      (leaves 0 refl (omega arith) refl refl)

State-IsSound_example : IsSound at_end
State-IsSound_example = State-IsSound ending_host to_end

Reach-Completes_example : Completes ending_host at_end
Reach-Completes_example =
    Reach-Completes ending_host at_end to_end (refl, tt) refl (still_closing (0 ∷ []))

Reach-Harmless_example : Adds (Harmless ending_host ("vm" ∷ []) at_end.seen) world at_end.world
Reach-Harmless_example = Reach-Harmless ending_host ("vm" ∷ []) to_end

-- VBoxManage is not there: the waiter returns, and nobody tells `main`.
abbrev asked : World (List Line)
asked = (wait_guest_property "vm" pattern without_vboxmanage world).1

abbrev in_loop : State
in_loop = record (start_watch without_vboxmanage "vm" at_start) { main = looping }

abbrev at_return : State
at_return =
    put_waiter in_loop 0
      (record (waiter_at in_loop (in_loop.watch 0)) { phase = leaving; world = asked; active = 0 })

abbrev at_close : State
at_close =
    put_waiter at_return 0
      (record (waiter_at at_return (at_return.watch 0)) { phase = returned; closed = true })

abbrev without_waiters : State
without_waiters = put at_close 0 (record (at_close.watch 0) { forwarder = ended })

to_return : Step without_vboxmanage in_loop at_return
unfolding native.Mathlib.Decide.ℕ_discrete wait_guest_property go_virtualbox.Vbcmd.error_of
to_return = waits 0 refl (omega arith) (fails refl refl)

to_stuck : Reach without_vboxmanage at_start without_waiters
unfolding native.Mathlib.Decide.ℕ_discrete
to_stuck =
    later
      (later (later (later (later begin (starts refl)) (loops refl)) to_return)
        (waits 0 refl (omega arith) (ends refl)))
      (finishes 0 refl (omega arith) refl refl)

over : (i : ℕ) → i < 1 → Over without_waiters i
unfolding native.Mathlib.Decide.ℕ_discrete
over zero below = (refl, refl)
over (suc i) below = absurd (omega (arith, below))

looping-stuck_example : ¬ ((t : State) × Step without_vboxmanage without_waiters t)
looping-stuck_example = looping-stuck without_vboxmanage without_waiters refl over
