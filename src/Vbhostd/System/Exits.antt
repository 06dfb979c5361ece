-- ===== src/Vbhostd/System/Exits.antt =====
-- cmd/vbhostd: after the loop over the properties, all goroutines of the group can end.
mod Waiters
use mathlib.Core.Path.{subst}
use native.Mathlib.Decide.{ℕ_discrete, dec_lt}
use go_virtualbox.Prelude.{
  ℕ, zero, suc, ◌+◌, ◌≤◌, ◌<◌, String, Bool, true, false, List, [], ◌∷◌, ◌≡◌, refl, sym, ap, ◌∙◌,
  arith, inl, inr, Bool-cases, update_same, update_other, tally_none,
}
use go_virtualbox.CmdArgs.Spec.{Distinct}
use go_virtualbox.Vbcmd.{Host, World}
use go_virtualbox.Guest.Waiter.{Phase, returned, Waiter, Alone, Run, stay, go_on}
use go_virtualbox.Guest.Waiter.Moves.{Leaves, done-Leaves}
use go_virtualbox.Vbhostd.{Line}
use go_virtualbox.Vbhostd.System.{
  Watch, Main, closing, looping, Forwarder, ended, starting, receiving, passing, selecting, exited,
  completed, State, pattern, waiter_at, with_waiter, put_waiter, Visit, initial, Step, waits,
  closes, selects, completes, exits_completed, Reach, begin, later, is_live, exit,
}
use go_virtualbox.Vbhostd.System.Marks.{IsTold, told, open_places, times}
use go_virtualbox.Vbhostd.System.Told.{Visit-open, Reach-IsTold}
use go_virtualbox.Vbhostd.System.Covered.{IsCovered, Reach-IsCovered}
use go_virtualbox.Vbhostd.System.Order.{counted, weight_of, IsSound}
use go_virtualbox.Vbhostd.System.Sound.{State-IsSound}
use go_virtualbox.Vbhostd.System.Exits.Waiters.{Reach-trans, AllReturned, first-AllReturned}

module _ (host : Host) where
  -- `main` has exited because the group is done, and all waiters have returned.
  pub record Completes (s : State) : Type 0 where
    pub end : State
    pub run : Reach host s end
    pub is_exit : end.main ≡ exited completed
    pub are_back : (i : ℕ) → i < s.size → (end.watch i).phase ≡ returned

  -- from the state in which the last waiter has returned
  last_steps :
      (s : State)
      → s.main ≡ selecting
      → s.active ≡ 0
      → Reach host s (exit completed (record s { wait = true }))
  last_steps s e none_left = later (later begin (completes e none_left)) (exits_completed e refl)

  selecting-Completes :
      {vms : List String} {world : World (List Line)} (s : State)
      → Reach host (initial vms world) s
      → Distinct vms
      → s.main ≡ selecting
      → Completes s
  selecting-Completes s reach distinct e =
      let back = first-AllReturned host s s.size e (omega arith) shut in
      let sound = State-IsSound host (Reach-trans host reach back.run) in
      record {
        end = exit completed (record back.end { wait = true });
        run = Reach-trans host back.run (
            last_steps back.end back.selects (
              sound.count
              ∙ tally_none counted _ _ (λ i below.
                ap weight_of (back.are_back i (omega (arith, below, back.same_size))))));
        is_exit = refl;
        are_back = back.are_back;
      }
    where
      shut : (i : ℕ) → i < s.size → (s.watch i).done ≡ true
      shut i below = elim (Bool-cases (s.watch i).done) [
        | inl yes_ ↦ yes_
        | inr no_ ↦ absurd (
            omega (
              arith,
              (Reach-IsCovered host distinct reach).cover i below,
              ap told no_,
              ap (λ m. times i (open_places m s.done)) e,
            ))
      ]

  closing-Completes :
      {vms : List String} {world : World (List Line)} (places : List ℕ) (s : State)
      → Reach host (initial vms world) s
      → Distinct vms
      → s.main ≡ closing places
      → Completes s
  closing-Completes [] s reach distinct e =
      let step : Step host s (record s { main = selecting }) = selects e in
      let rest = selecting-Completes _ (later reach step) distinct refl in
      record {
        end = rest.end;
        run = Reach-trans host (later begin step) rest.run;
        is_exit = rest.is_exit;
        are_back = rest.are_back;
      }
  closing-Completes (i ∷ places) s reach distinct e =
      let step = closes i e Visit.here open_ in
      let rest = closing-Completes places _ (later reach step) distinct refl in
      record {
        end = rest.end;
        run = Reach-trans host (later begin step) rest.run;
        is_exit = rest.is_exit;
        are_back = rest.are_back;
      }
    where
      open_ : (s.watch i).done ≡ false
      open_ = elim (Bool-cases (s.watch i).done) [
        | inl shut ↦ absurd (Visit-open (Reach-IsTold host reach) e Visit.here shut)
        | inr known ↦ known
      ]

  pub data AfterLoop : Main → Type 0 where
    still_closing : (places : List ℕ) → AfterLoop (closing places)
    in_select : AfterLoop selecting

  -- Once vbhostd has left the loop over the properties, and the machines have different names, there
  -- is a run without the timeout in which it closes all channels, every waiter returns, and `main`
  -- exits because the group is done, whatever the programs reply and whatever the forwarders do.
  pub Reach-Completes :
      {vms : List String} {world : World (List Line)} {main : Main} (s : State)
      → Reach host (initial vms world) s
      → Distinct vms
      → s.main ≡ main
      → AfterLoop main
      → Completes s
  Reach-Completes s reach distinct e (still_closing places) =
      closing-Completes places s reach distinct e
  Reach-Completes s reach distinct e in_select = selecting-Completes s reach distinct e
