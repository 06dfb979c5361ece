-- ===== src/Vbhostd/System/Told.antt =====
-- cmd/vbhostd: the channels `done[vm]`, and which of them the loop after the properties closes.
use mathlib.Core.Path.{subst}
use native.Mathlib.Decide.{ℕ_discrete, dec_lt}
use go_virtualbox.Prelude.{
  ℕ, suc, ◌+◌, ◌≤◌, ◌<◌, String, Bool, true, false, List, ◌∷◌, ◌≡◌, ◌≢◌, refl, sym, ap, arith, ◌⊎◌,
  update, update_all, inl, inr,
}
use go_virtualbox.Vbcmd.{Host, World}
use go_virtualbox.Guest.Waiter.{Waiter, wait_guest_properties, Alone, reports, fails, quits, ends}
use go_virtualbox.Vbhostd.{Line}
use go_virtualbox.Guest.{GuestProperty}
use go_virtualbox.Vbhostd.System.Marks.{
  same_self, same_eq, same_ne, times, told, same, open_places, marks, IsTold, Visit-times,
  insert-times-le,
}
use go_virtualbox.Vbhostd.System.{
  Watch, Main, starting, closing, State, pattern, start_watch, watch_of, Visit, Step, starts, loops,
  waits, sends, finishes, handles, leaves, closes, closes_again, selects, completes,
  exits_completed, exits_timeout, Reach, begin, later, initial,
}

module _ (host : Host) where
  -- only `closes` marks a channel, and only `starts` makes one
  Alone-done :
      {vm : String} {v w : Waiter (List Line)} → Alone host vm pattern v w → w.done ≡ v.done
  Alone-done (reports at result) = refl
  Alone-done (fails at result) = refl
  Alone-done (quits at closed) = refl
  Alone-done (ends at) = refl

-- The same machines, and each channel has the same marks.
pub record SameMarks (s t : State) : Type 0 where
  pub size : t.size ≡ s.size
  pub equal : (i : ℕ) → marks t i ≡ marks s i

-- The step that starts a machine.
pub record HasStarted (host : Host) (s t : State) : Type 0 where
  pub vm : String
  pub vms : List String
  pub before : s.main ≡ starting (vm ∷ vms)
  pub after : t ≡ record (start_watch host vm s) { main = starting vms }

-- A write that leaves the channel as it is.
told-update :
    (f : ℕ → Watch) (i : ℕ) (w : Watch)
    → w.done ≡ (f i).done
    → (j : ℕ) → told (update f i w j).done ≡ told (f j).done
told-update f i w e =
    update_all (λ j v. told v.done ≡ told (f j).done) f i w (λ j n. refl) (ap told e)

-- The channel at a place gets closed.
told-close :
    (f : ℕ → Watch) (i : ℕ)
    → (f i).done ≡ false
    → (j : ℕ) → told (update f i (record (f i) { done = true }) j).done ≡ told (f j).done + same i j
told-close f i open_ =
    update_all (λ j v. told v.done ≡ told (f j).done + same i j) f i _
      (λ j n. omega (arith, same_ne i j n)) (omega (arith, ap told open_, same_self i))

-- A machine gets its place and its entry in the map.
start-IsTold :
    (host : Host) {s : State} {vms : List String} (vm : String)
    → s.main ≡ starting (vm ∷ vms)
    → IsTold s
    → IsTold (record (start_watch host vm s) { main = starting vms })
start-IsTold host {s} {vms} vm e old = record {
  once = λ i. elim (ℕ_discrete s.size i) [
    | yes here_ ↦
        omega (arith, fewer i, old.outside i (omega (arith, here_)), same_eq s.size i here_)
    | no n ↦ omega (arith, fewer i, old.once i, same_ne s.size i n)
  ];
  outside = λ i above. omega (
    arith,
    fewer i,
    old.outside i (omega (arith, above)),
    same_ne s.size i (λ here_. omega (arith, here_)),
  );
}
  where
    fewer :
        (i : ℕ)
        → marks (record (start_watch host vm s) { main = starting vms }) i
          ≤ marks s i + same s.size i
    fewer i = omega (
      arith,
      update_all (λ j v. told v.done ≤ told (s.watch j).done) s.watch s.size
          (watch_of vm (wait_guest_properties host vm pattern s.world s.active))
          (λ j n. omega arith) (omega arith) i,
      insert-times-le vm s.size i s.done,
      ap (λ m. times i (open_places m s.done)) e,
    )

-- A write that keeps the channel.
put-SameMarks :
    {s : State} {world : World (List Line)} {active : ℕ} {seen : List (ℕ × GuestProperty)}
    {main : Main} (i : ℕ) (w : Watch)
    → w.done ≡ (s.watch i).done
    → open_places main s.done ≡ open_places s.main s.done
    → SameMarks s (record s {
      world = world;
      active = active;
      watch = update s.watch i w;
      seen = seen;
      main = main;
    })
put-SameMarks {s} i w e places = record {
  size = refl;
  equal = λ j. omega (arith, told-update s.watch i w e j, ap (times j) places);
}

-- The same channels.
move-SameMarks :
    {s : State} {world : World (List Line)} {wait : Bool} {main : Main}
    → open_places main s.done ≡ open_places s.main s.done
    → SameMarks s (record s { world = world; wait = wait; main = main })
move-SameMarks places = record { size = refl; equal = λ j. omega (arith, ap (times j) places) }

-- where `main` is
placed :
    (s : State) {main : Main} → s.main ≡ main → open_places main s.done ≡ open_places s.main s.done
placed s e = sym (ap (λ m. open_places m s.done) e)

-- A channel that is in the rest of the loop is one of a machine, and not closed yet.
Visit-marks :
    (s : State) {places rest : List ℕ} {i : ℕ}
    → s.main ≡ closing places
    → Visit i places rest
    → marks s i ≡ suc (told (s.watch i).done + times i rest)
Visit-marks s {i = i} e visit =
    omega (arith, Visit-times visit i, same_self i, ap (λ m. times i (open_places m s.done)) e)

pub Visit-below :
    {s : State} {places rest : List ℕ} {i : ℕ}
    → IsTold s
    → s.main ≡ closing places
    → Visit i places rest
    → i < s.size
Visit-below {s} {i = i} known e visit = elim (dec_lt i s.size) [
  | yes below ↦ below
  | no above ↦ absurd (omega (arith, Visit-marks s e visit, known.outside i (omega (arith, above))))
]

pub Visit-open :
    {s : State} {places rest : List ℕ} {i : ℕ}
    → IsTold s
    → s.main ≡ closing places
    → Visit i places rest
    → (s.watch i).done ≢ true
Visit-open {s} {i = i} known e visit shut =
    omega (arith, Visit-marks s e visit, known.once i, ap told shut)

module _ (host : Host) where
  -- Each step keeps the marks, but the one that starts a machine.
  pub Step-SameMarks :
      {s t : State} → Step host s t → IsTold s → HasStarted host s t ⊎ SameMarks s t
  Step-SameMarks (starts e) known = inl (record { vm = _; vms = _; before = e; after = refl })
  Step-SameMarks {s} (loops e) known = inr (move-SameMarks (placed s e))
  Step-SameMarks (waits i live below step) known =
      inr (put-SameMarks i _ (Alone-done host step) refl)
  Step-SameMarks (sends i live below offers e) known = inr (put-SameMarks i _ refl refl)
  Step-SameMarks (finishes i live below shut e) known = inr (put-SameMarks i _ refl refl)
  Step-SameMarks (handles i e below holds result) known = inr (put-SameMarks i _ refl refl)
  Step-SameMarks {s} (leaves i e below holds result) known =
      inr (put-SameMarks i _ refl (placed s e))
  Step-SameMarks {s} (closes i e visit open_) known = inr (record {
    size = refl;
    equal = λ j. omega (
      arith,
      told-close s.watch i open_ j,
      Visit-times visit j,
      ap (λ m. times j (open_places m s.done)) e,
    );
  })
  Step-SameMarks (closes_again i e visit shut) known = absurd (Visit-open known e visit shut)
  Step-SameMarks {s} (selects e) known = inr (move-SameMarks (placed s e))
  Step-SameMarks (completes e none_left) known = inr (move-SameMarks refl)
  Step-SameMarks {s} (exits_completed e shut) known = inr (move-SameMarks (placed s e))
  Step-SameMarks {s} (exits_timeout e) known = inr (move-SameMarks (placed s e))

  pub Step-IsTold : {s t : State} → Step host s t → IsTold s → IsTold t
  Step-IsTold {s} step known = elim (Step-SameMarks step known) [
    | inl started ↦
        subst IsTold (sym started.after) (start-IsTold host started.vm started.before known)
    | inr kept ↦ record {
      once = λ i. omega (arith, kept.equal i, known.once i);
      outside =
          λ i above. omega (arith, kept.equal i, known.outside i (omega (arith, above, kept.size)));
    }
  ]

  pub Reach-IsTold :
      {vms : List String} {world : World (List Line)} {s : State}
      → Reach host (initial vms world) s
      → IsTold s
  Reach-IsTold begin = record { once = λ i. omega arith; outside = λ i above. refl }
  Reach-IsTold (later reach step) = Step-IsTold step (Reach-IsTold reach)
