-- ===== src/Vbhostd/System/Names.antt =====
-- cmd/vbhostd: the machines that are waited for are those that `main` has chosen.
use mathlib.Core.Path.{subst}
use go_virtualbox.Prelude.{
  ℕ, suc, ◌<◌, String, true, List, [], ◌∷◌, ◌≡◌, refl, arith, All, elem, update, update_all,
}
use text.Mathlib.TextPositions.{eq_refl}
use go_virtualbox.Vbcmd.{Host, World}
use go_virtualbox.Guest.Waiter.{wait_guest_properties}
use go_virtualbox.Vbhostd.{Line}
use go_virtualbox.Vbhostd.System.{
  Watch, watch_of, start_watch, pattern, Main, starting, looping, closing, selecting, exited,
  panicked, State, initial, Step, starts, loops, waits, sends, finishes, handles, leaves, closes,
  closes_again, selects, completes, exits_completed, exits_timeout, Reach, begin, later,
}

-- the machines that are still to be started
abbrev pub ToStart : List String → Main → Type 0
ToStart vms (starting rest) = All (λ vm. elem vm vms ≡ true) rest
ToStart vms looping = Unit
ToStart vms (closing places) = Unit
ToStart vms selecting = Unit
ToStart vms (exited how) = Unit
ToStart vms panicked = Unit

pub record AreChosen (vms : List String) (s : State) : Type 0 where
  pub each : (i : ℕ) → i < s.size → elem (s.watch i).vm vms ≡ true
  pub rest : ToStart vms s.main

All-elem :
    (vms rest : List String)
    → ((vm : String) → elem vm rest ≡ true → elem vm vms ≡ true)
    → All (λ vm. elem vm vms ≡ true) rest
All-elem vms [] h = tt
All-elem vms (x ∷ rest) h =
    (h x (rw (eq_refl x) refl), All-elem vms rest (λ vm e. h vm (ground (arith, e))))

-- A write that keeps the name.
kept_each :
    (vms : List String) (s : State) (i : ℕ) (w : Watch)
    → ((j : ℕ) → j < s.size → elem (s.watch j).vm vms ≡ true)
    → w.vm ≡ (s.watch i).vm
    → (j : ℕ) → j < s.size
    → elem (update s.watch i w j).vm vms ≡ true
kept_each vms s i w old same =
    update_all (λ j v. j < s.size → elem v.vm vms ≡ true) s.watch i w (λ j n. old j)
      (λ below. rw same (old i below))

module _ (host : Host) (vms : List String) where
  start-AreChosen :
      {s : State} {rest : List String} (vm : String)
      → s.main ≡ starting (vm ∷ rest)
      → AreChosen vms s
      → AreChosen vms (record (start_watch host vm s) { main = starting rest })
  start-AreChosen {s} {rest} vm e old =
      let (first, others) = subst (ToStart vms) e old.rest in
      record {
        each =
            update_all (λ j v. j < suc s.size → elem v.vm vms ≡ true) s.watch s.size
              (watch_of vm (wait_guest_properties host vm pattern s.world s.active))
              (λ j n below. old.each j (omega (arith, below, n))) (λ below. first);
        rest = others;
      }

  Step-AreChosen : {s t : State} → Step host s t → AreChosen vms s → AreChosen vms t
  Step-AreChosen (starts e) old = start-AreChosen _ e old
  Step-AreChosen (loops e) old = record { each = old.each; rest = tt }
  Step-AreChosen {s} (waits i live below step) old = record {
    each = kept_each vms s i _ old.each refl;
    rest = old.rest;
  }
  Step-AreChosen {s} (sends i live below offers e) old = record {
    each = kept_each vms s i _ old.each refl;
    rest = old.rest;
  }
  Step-AreChosen {s} (finishes i live below shut e) old = record {
    each = kept_each vms s i _ old.each refl;
    rest = old.rest;
  }
  Step-AreChosen {s} (handles i e below holds told) old = record {
    each = kept_each vms s i _ old.each refl;
    rest = old.rest;
  }
  Step-AreChosen {s} (leaves i e below holds told) old = record {
    each = kept_each vms s i _ old.each refl;
    rest = tt;
  }
  Step-AreChosen {s} (closes i e visit open_) old = record {
    each = kept_each vms s i _ old.each refl;
    rest = tt;
  }
  Step-AreChosen (closes_again i e visit shut) old = record { each = old.each; rest = tt }
  Step-AreChosen (selects e) old = record { each = old.each; rest = tt }
  Step-AreChosen (completes e none_left) old = record { each = old.each; rest = old.rest }
  Step-AreChosen (exits_completed e told) old = record { each = old.each; rest = tt }
  Step-AreChosen (exits_timeout e) old = record { each = old.each; rest = tt }

  -- Each machine that vbhostd waits for is one of those it was started for.
  pub Reach-AreChosen :
      {world : World (List Line)} {s : State} → Reach host (initial vms world) s → AreChosen vms s
  Reach-AreChosen begin = record {
    each = λ i below. absurd (omega (arith, below));
    rest = All-elem vms vms (λ vm e. e);
  }
  Reach-AreChosen (later reach step) = Step-AreChosen step (Reach-AreChosen reach)
