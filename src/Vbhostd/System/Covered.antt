-- ===== src/Vbhostd/System/Covered.antt =====
-- cmd/vbhostd: with machines of different names, the map has the channel of each.
use mathlib.Core.Path.{subst}
use native.Mathlib.Decide.{ℕ_discrete}
use go_virtualbox.Prelude.{
  ℕ, ◌≤◌, ◌<◌, String, false, Option, none, List, [], ◌∷◌, ◌≡◌, refl, sym, ap, arith, inl, inr,
  eq_iff, Dict, lookup, insert, lookup-insert, All, elem, update_other,
}
use go_virtualbox.CmdArgs.Spec.{Distinct}
use go_virtualbox.Vbcmd.{Host, World}
use go_virtualbox.Guest.Waiter.{wait_guest_properties}
use go_virtualbox.Vbhostd.{Line}
use go_virtualbox.Vbhostd.System.{
  Main, starting, looping, closing, selecting, exited, panicked, State, pattern, start_watch,
  watch_of, initial, Step, starts, loops, waits, sends, finishes, handles, leaves, closes,
  closes_again, selects, completes, exits_completed, exits_timeout, Reach, begin, later,
}
use go_virtualbox.Vbhostd.System.Marks.{
  same_eq, times, told, open_places, marks, IsTold, insert-times,
}
use go_virtualbox.Vbhostd.System.Told.{Step-SameMarks, Reach-IsTold}

-- The machines that are to be started have different names, and none has an entry.
abbrev pub NewNames : Dict ℕ → List String → Type 0
NewNames m vms = Distinct vms × All (λ vm. lookup vm m ≡ none) vms

abbrev pub Ahead : Main → Dict ℕ → Type 0
Ahead (starting vms) m = NewNames m vms
Ahead looping m = Unit
Ahead (closing places) m = Unit
Ahead selecting m = Unit
Ahead (exited how) m = Unit
Ahead panicked m = Unit

-- Each channel is closed or still to be closed.
pub record IsCovered (s : State) : Type 0 where
  pub ahead : Ahead s.main s.done
  pub cover : (i : ℕ) → i < s.size → 1 ≤ marks s i

insert-lookups :
    (vm : String) (place : ℕ) (m : Dict ℕ) (vms : List String)
    → elem vm vms ≡ false
    → All (λ v. lookup v m ≡ none) vms
    → All (λ v. lookup v (insert vm place m) ≡ none) vms
insert-lookups vm place m [] new all = tt
insert-lookups vm place m (v ∷ vms) new (first, all) = (
  ground (arith, lookup-insert vm v place m, eq_iff v vm, eq_iff vm v),
  insert-lookups vm place m vms (ground arith) all,
)

next-NewNames :
    (vm : String) (place : ℕ) (m : Dict ℕ) (vms : List String)
    → NewNames m (vm ∷ vms)
    → NewNames (insert vm place m) vms
next-NewNames vm place m vms ((new, distinct), (free, all)) =
    (distinct, insert-lookups vm place m vms new all)

module _ (host : Host) where
  start-IsCovered :
      {s : State} {vms : List String} (vm : String)
      → s.main ≡ starting (vm ∷ vms)
      → IsCovered s
      → IsCovered (record (start_watch host vm s) { main = starting vms })
  start-IsCovered {s} {vms} vm e old = record {
    ahead = next-NewNames vm s.size s.done vms names;
    cover = λ i below. elim (ℕ_discrete s.size i) [
      | yes last ↦ omega (arith, insert-times vm s.size i s.done names.1.0, same_eq s.size i last)
      | no n ↦ omega (
        arith,
        old.cover i (omega (arith, below, n)),
        insert-times vm s.size i s.done names.1.0,
        ap (λ m. times i (open_places m s.done)) e,
        ap (λ w. told w.done)
            (update_other s.watch s.size i
              (watch_of vm (wait_guest_properties host vm pattern s.world s.active)) n),
      )
    ];
  }
    where
      names : NewNames s.done (vm ∷ vms)
      names = subst (λ m. Ahead m s.done) e old.ahead

  -- only the loop over the machines needs the names
  Step-Ahead : {s t : State} → Step host s t → IsCovered s → Ahead t.main t.done
  Step-Ahead (starts e) old = (start-IsCovered _ e old).ahead
  Step-Ahead (loops e) old = tt
  Step-Ahead (waits i live below step) old = old.ahead
  Step-Ahead (sends i live below offers e) old = old.ahead
  Step-Ahead (finishes i live below shut e) old = old.ahead
  Step-Ahead (handles i e below holds result) old = old.ahead
  Step-Ahead (leaves i e below holds result) old = tt
  Step-Ahead (closes i e visit open_) old = tt
  Step-Ahead (closes_again i e visit shut) old = tt
  Step-Ahead (selects e) old = tt
  Step-Ahead (completes e none_left) old = old.ahead
  Step-Ahead (exits_completed e shut) old = tt
  Step-Ahead (exits_timeout e) old = tt

  Step-IsCovered : {s t : State} → Step host s t → IsTold s → IsCovered s → IsCovered t
  Step-IsCovered step known old = elim (Step-SameMarks host step known) [
    | inl started ↦
        subst IsCovered (sym started.after) (start-IsCovered started.vm started.before old)
    | inr kept ↦ record {
      ahead = Step-Ahead step old;
      cover = λ i below. omega (arith, kept.equal i, old.cover i (omega (arith, below, kept.size)));
    }
  ]

  -- In a run with different names each channel of a machine is closed or will be.
  pub Reach-IsCovered :
      {vms : List String} {world : World (List Line)} {s : State}
      → Distinct vms
      → Reach host (initial vms world) s
      → IsCovered s
  unfolding lookup
  Reach-IsCovered {vms} distinct begin = record {
    ahead = (distinct, none_there vms);
    cover = λ i below. absurd (omega (arith, below));
  }
    where
      none_there : (vms : List String) → All (λ v. ◌≡◌ {A = Option ℕ} none none) vms
      none_there [] = tt
      none_there (v ∷ vms) = (refl, none_there vms)
  Reach-IsCovered distinct (later reach step) =
      Step-IsCovered step (Reach-IsTold host reach) (Reach-IsCovered distinct reach)
