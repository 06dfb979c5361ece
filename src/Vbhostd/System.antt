-- ===== src/Vbhostd/System.antt =====
-- cmd/vbhostd: `main` with the goroutines that run beside it, from the first WaitGuestProperties to the
-- exit. A step is one of `main`, of a waiter, of the goroutine that passes the properties of a
-- machine on to `agg`, or of the one that waits for the group. The goroutines of a machine have its
-- place in the list of machines.
pub mod Order
pub mod Sound
pub mod Told
pub mod Names
pub mod Harmless
pub mod Stuck
pub mod Exits
pub mod Covered
pub mod Marks
use go_virtualbox.Prelude.{
  ℕ, zero, suc, ◌+◌, ◌<◌, String, Bool, true, false, List, [], ◌∷◌, ◌++◌, ◌≡◌, Dict, map, insert,
  update,
}
use go_virtualbox.Go.Outcome.{ok}
use go_virtualbox.Vbcmd.{Host, World}
use go_virtualbox.Guest.{GuestProperty}
use go_virtualbox.Guest.Waiter.{Phase, waiting, offering, Waiter, wait_guest_properties, Alone}
use go_virtualbox.Vbhostd.{Line, exiting, handle}

-- for prop := range c { agg <- prop }
pub data Forwarder : Type 0 where
  receiving ended : Forwarder
  passing : GuestProperty → Forwarder

-- What belongs to one machine: its waiter with the channels `props` and `done[vm]`, and its forwarder.
pub record Watch : Type 0 where
  pub vm : String
  pub phase : Phase
  pub sent : List GuestProperty
  pub closed : Bool
  pub done : Bool
  pub forwarder : Forwarder

pub data Exit : Type 0 where
  completed timeout : Exit

-- where `main` is: in the loop over the machines, in the loop over `agg`, in the loop that closes the
-- channels of the map, of which these are left, in the select, or at its end
pub data Main : Type 0 where
  starting : List String → Main
  looping : Main
  closing : List ℕ → Main
  selecting : Main
  exited : Exit → Main
  panicked : Main

-- `active` is the counter of the group, `done` the map from the machines to the places of their
-- channels, and `wait` says that this channel is closed. `seen` is what the loop over `agg` took, with
-- the places of the machines.
pub record State : Type 0 where
  pub world : World (List Line)
  pub active : ℕ
  pub size : ℕ
  pub watch : ℕ → Watch
  pub done : Dict ℕ
  pub seen : List (ℕ × GuestProperty)
  pub wait : Bool
  pub main : Main

-- The goroutines end with `main`.
abbrev pub is_live : Main → Bool
is_live (exited how) = false
is_live panicked = false
is_live (starting vms) = true
is_live looping = true
is_live (closing places) = true
is_live selecting = true

abbrev pub pattern : String
pattern = "vbhostd/*"

-- the waiter of a machine; all of them share the world and the group
abbrev pub waiter_at : State → Watch → Waiter (List Line)
waiter_at s w = record {
  phase = w.phase;
  world = s.world;
  sent = w.sent;
  closed = w.closed;
  active = s.active;
  done = w.done;
}

abbrev pub with_waiter : Watch → Waiter (List Line) → Watch
with_waiter w v = record w { phase = v.phase; sent = v.sent; closed = v.closed; done = v.done }

abbrev pub put_waiter : State → ℕ → Waiter (List Line) → State
put_waiter s i v = record s {
  world = v.world;
  active = v.active;
  watch = update s.watch i (with_waiter (s.watch i) v);
}

abbrev pub put : State → ℕ → Watch → State
put s i w = record s { watch = update s.watch i w }

-- the waiter sends, and the forwarder receives
abbrev pub hand_over : GuestProperty → Watch → Watch
hand_over prop w = record w {
  phase = waiting;
  sent = w.sent ++ prop ∷ [];
  forwarder = passing prop;
}

-- the forwarder of a machine sends, and `main` receives
abbrev pub take_from : State → ℕ → GuestProperty → State
take_from s i prop = record s {
  watch = update s.watch i (record (s.watch i) { forwarder = receiving });
  seen = s.seen ++ (i, prop) ∷ [];
}

-- the goroutines of a machine before they run
abbrev pub watch_of : String → Waiter (List Line) → Watch
watch_of vm w = record {
  vm = vm;
  phase = w.phase;
  sent = w.sent;
  closed = w.closed;
  done = w.done;
  forwarder = receiving;
}

-- One entry of the map is visited, and these are left.
pub data Visit (i : ℕ) : List ℕ → List ℕ → Type 0 where
  here : {places : List ℕ} → Visit i (i ∷ places) places
  there : {j : ℕ} {places rest : List ℕ} → Visit i places rest → Visit i (j ∷ places) (j ∷ rest)

abbrev pub places_of : Dict ℕ → List ℕ
places_of m = map (λ (key, place). place) m

-- what `Exiting....` leaves
abbrev pub exit : Exit → State → State
exit how s = record s {
  world = record s.world { this = s.world.this ++ exiting ∷ [] };
  main = exited how;
}

module _ (host : Host) where
  -- done[vm] = make(chan bool), the call of WaitGuestProperties, and the two goroutines
  abbrev pub start_watch : String → State → State
  start_watch vm s =
      let w = wait_guest_properties host vm pattern s.world s.active in
      record s {
        active = w.active;
        size = suc s.size;
        watch = update s.watch s.size (watch_of vm w);
        done = insert vm s.size s.done;
      }

  pub data Step (s : State) : State → Type 0 where
    starts :
        {vm : String} {vms : List String}
        → s.main ≡ starting (vm ∷ vms)
        → Step s (record (start_watch vm s) { main = starting vms })
    loops : s.main ≡ starting [] → Step s (record s { main = looping })
    waits :
        {v : Waiter (List Line)} (i : ℕ)
        → is_live s.main ≡ true
        → i < s.size
        → Alone host (s.watch i).vm pattern (waiter_at s (s.watch i)) v
        → Step s (put_waiter s i v)
    sends :
        {prop : GuestProperty} (i : ℕ)
        → is_live s.main ≡ true
        → i < s.size
        → (s.watch i).phase ≡ offering prop
        → (s.watch i).forwarder ≡ receiving
        → Step s (put s i (hand_over prop (s.watch i)))
    finishes :
        (i : ℕ)
        → is_live s.main ≡ true
        → i < s.size
        → (s.watch i).closed ≡ true
        → (s.watch i).forwarder ≡ receiving
        → Step s (put s i (record (s.watch i) { forwarder = ended }))
    handles :
        {prop : GuestProperty} {after : World (List Line)} (i : ℕ)
        → s.main ≡ looping
        → i < s.size
        → (s.watch i).forwarder ≡ passing prop
        → handle prop host s.world ≡ (ok true, after)
        → Step s (record (take_from s i prop) { world = after })
    leaves :
        {prop : GuestProperty} {after : World (List Line)} (i : ℕ)
        → s.main ≡ looping
        → i < s.size
        → (s.watch i).forwarder ≡ passing prop
        → handle prop host s.world ≡ (ok false, after)
        → Step s (record (take_from s i prop) { world = after; main = closing (places_of s.done) })
    closes :
        {places rest : List ℕ} (i : ℕ)
        → s.main ≡ closing places
        → Visit i places rest
        → (s.watch i).done ≡ false
        → Step s (record (put s i (record (s.watch i) { done = true })) { main = closing rest })
    closes_again :
        {places rest : List ℕ} (i : ℕ)
        → s.main ≡ closing places
        → Visit i places rest
        → (s.watch i).done ≡ true
        → Step s (record s { main = panicked })
    selects : s.main ≡ closing [] → Step s (record s { main = selecting })
    completes : s.main ≡ selecting → s.active ≡ 0 → Step s (record s { wait = true })
    exits_completed : s.main ≡ selecting → s.wait ≡ true → Step s (exit completed s)
    exits_timeout : s.main ≡ selecting → Step s (exit timeout s)

  pub data Reach (start : State) : State → Type 0 where
    begin : Reach start start
    later : {s t : State} → Reach start s → Step s t → Reach start t

-- before the first machine; no machine has the blank place
abbrev pub blank : Watch
blank = record {
  vm = "";
  phase = waiting;
  sent = [];
  closed = false;
  done = false;
  forwarder = receiving;
}

abbrev pub initial : List String → World (List Line) → State
initial vms world = record {
  world = world;
  active = 0;
  size = 0;
  watch = λ i. blank;
  done = [];
  seen = [];
  wait = false;
  main = starting vms;
}
