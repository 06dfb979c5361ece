-- ===== src/Tests/Guests.antt =====
-- guestprop.go at concrete replies.
use go_virtualbox.Prelude.{
  true, String, true, none, List, [], ◌∷◌, ◌≡◌, refl, ◌⊎◌, ◌++◌, if◌then◌else◌, elem,
}
use go_virtualbox.Go.Outcome.{ok}
use go_virtualbox.Go.Strings.{Lacks-lacks}
use go_virtualbox.Vbcmd.{Host, World, Invocation}
use go_virtualbox.Guest.{GuestProperty, get_guest_property, wait_guest_property}
use go_virtualbox.Guest.Shown.{IsPlain, get_guest_property-shown, value_shown}
use go_virtualbox.Guest.Changed.{change_shown, wait_guest_property-shown}
use go_virtualbox.Guest.Waiter.{
  Waiter, wait_guest_properties, Reach, begin, later, alone, reports, sends, closes, quits, ends,
  returned,
}
use go_virtualbox.Guest.Waiter.Ends.{IsSound, Reach-IsSound}
use go_virtualbox.Guest.Waiter.Moves.{Leaves, done-Leaves}
use go_virtualbox.Tests.Hosts.{vboxmanage}

abbrev guest_stdout : List String → String
guest_stdout words =
    if elem "get" words then value_shown "on fire" else change_shown "vbhostd/open" "http://x" " "

-- VBoxManage knows one property and tells one change
abbrev guest_host : Host
guest_host = record {
  os = "linux";
  manage = vboxmanage;
  stat = λ path. none;
  dir = λ path. path;
  reply = λ log inv. record { stdout = guest_stdout inv.argv; stderr = ""; failure = none };
}

abbrev idle_world : World (Unit {0})
idle_world = record { log = []; this = tt }

abbrev get_call : Invocation
get_call = record { program = "VBoxManage"; argv = "guestproperty" ∷ "get" ∷ "vm" ∷ "state" ∷ [] }

abbrev wait_call : Invocation
wait_call = record {
  program = "VBoxManage";
  argv = "guestproperty" ∷ "wait" ∷ "vm" ∷ "vbhostd/*" ∷ [];
}

on_fire-IsPlain : IsPlain "on fire"
unfolding go_virtualbox.Go.Strings.Trim.trim_right go_virtualbox.Go.Strings.lacks
on_fire-IsPlain = record {
  one_line = Lacks-lacks 10 "on fire" refl;
  not_empty = refl;
  trimmed = refl;
}

get_guest_property-shown_example :
    get_guest_property "vm" "state" guest_host idle_world
    ≡ (ok "on fire", record { log = get_call ∷ []; this = tt })
unfolding go_virtualbox.Vbcmd.prepare go_virtualbox.Go.Strings.lacks
get_guest_property-shown_example =
    get_guest_property-shown "vm" "state" "on fire" guest_host idle_world on_fire-IsPlain refl refl

abbrev change : GuestProperty
change = record { name = "vbhostd/open"; value = "http://x" }

abbrev told_in : World (Unit {0}) → World (Unit {0})
told_in w = record w { log = w.log ++ wait_call ∷ [] }

-- the same in a guest, where a wait with sudo runs before
abbrev inside_host : Host
inside_host = record guest_host { manage = record vboxmanage { guest = true; sudoer = true } }

abbrev inside_calls : List Invocation
inside_calls =
    record { program = "sudo"; argv = "VBoxManage" ∷ "guestproperty" ∷ "wait" ∷ "vbhostd/*" ∷ [] }
    ∷ wait_call
    ∷ []

wait_guest_property-shown_example :
    wait_guest_property "vm" "vbhostd/*" inside_host idle_world
    ≡ (ok ("vbhostd/open", "http://x"), record { log = inside_calls; this = tt })
unfolding go_virtualbox.Vbcmd.prepare go_virtualbox.Go.Strings.lacks
wait_guest_property-shown_example =
    wait_guest_property-shown "vm" "vbhostd/*" "vbhostd/open" "http://x" " " inside_host idle_world
      (λ e. refl) refl refl (Lacks-lacks b',' "vbhostd/open" refl)
      (Lacks-lacks b',' "http://x" refl) (Lacks-lacks 10 " " refl)

told :
    (w : World (Unit {0}))
    → wait_guest_property "vm" "vbhostd/*" guest_host w
      ≡ (ok ("vbhostd/open", "http://x"), told_in w)
unfolding go_virtualbox.Vbcmd.prepare go_virtualbox.Go.Strings.lacks
told w =
    wait_guest_property-shown "vm" "vbhostd/*" "vbhostd/open" "http://x" " " guest_host w
      (λ e. refl) refl refl (Lacks-lacks b',' "vbhostd/open" refl)
      (Lacks-lacks b',' "http://x" refl) (Lacks-lacks 10 " " refl)

-- two changes are reported, one is sent, and the caller closes `done`
abbrev last_waiter : Waiter (Unit {0})
last_waiter = record {
  phase = returned;
  world = told_in (told_in idle_world);
  sent = change ∷ [];
  closed = true;
  active = 0;
  done = true;
}

two_changes :
    Reach guest_host "vm" "vbhostd/*"
      (wait_guest_properties guest_host "vm" "vbhostd/*" idle_world 0)
      last_waiter
two_changes =
    later
      (later
        (later
          (later (later (later begin (alone (reports refl (told idle_world)))) (sends refl))
            (alone (reports refl (told (told_in idle_world)))))
          (closes refl))
        (alone (quits refl refl)))
      (alone (ends refl))

Reach-IsSound_example : IsSound guest_host "vm" "vbhostd/*" idle_world 0 last_waiter
Reach-IsSound_example = Reach-IsSound guest_host "vm" "vbhostd/*" idle_world 0 two_changes

-- a waiter that is told to end while it waits
abbrev told_waiter : Waiter (Unit {0})
told_waiter = record (wait_guest_properties guest_host "vm" "vbhostd/*" idle_world 0) {
  done = true;
}

done-Leaves_example :
    (told_waiter.phase ≡ returned) ⊎ Leaves guest_host "vm" "vbhostd/*" told_waiter
done-Leaves_example = done-Leaves guest_host "vm" "vbhostd/*" told_waiter refl
