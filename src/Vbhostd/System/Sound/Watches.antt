-- ===== src/Vbhostd/System/Sound/Watches.antt =====
-- cmd/vbhostd: what each step does to the goroutines of one machine.
use go_virtualbox.Prelude.{
  ℕ, ◌+◌, ◌-◌, ◌≤◌, String, true, List, [], ◌∷◌, ◌++◌, ◌≡◌, refl, sym, ap, ◌∙◌, arith, append-nil,
}
use go_virtualbox.Vbcmd.{Host}
use go_virtualbox.Guest.{GuestProperty}
use go_virtualbox.Guest.Waiter.{offering, Waiter, Alone, reports, fails, quits, ends}
use go_virtualbox.Vbhostd.{Line}
use go_virtualbox.Vbhostd.System.{
  Forwarder, receiving, ended, passing, Watch, State, pattern, waiter_at, with_waiter, hand_over,
}
use go_virtualbox.Vbhostd.System.Order.{
  taken, in_hand, counted, weight_of, is_returned, WatchAt, taken_same, taken_other,
}

-- a waiter's own step
pub record Kept (s : State) (seen : List (ℕ × GuestProperty)) (i : ℕ) (w : Watch)
    (v : Waiter (List Line)) : Type 0 where
  pub holds : WatchAt seen i (with_waiter w v)
  pub counts : v.active ≡ (s.active + weight_of v.phase) - counted w
  pub fewer : v.active ≤ s.active

pub Alone-Kept :
    (host : Host) {vm : String} (s : State) (seen : List (ℕ × GuestProperty)) (i : ℕ) (w : Watch)
    {v : Waiter (List Line)}
    → Alone host vm pattern (waiter_at s w) v
    → WatchAt seen i w
    → Kept s seen i w v
Alone-Kept host s seen i w (reports here told) at = record {
  holds = record { order = at.order; shut = at.shut ∙ ap is_returned here; after = at.after };
  counts = omega (arith, ap weight_of here);
  fewer = omega arith;
}
Alone-Kept host s seen i w (fails here told) at = record {
  holds = record { order = at.order; shut = at.shut ∙ ap is_returned here; after = at.after };
  counts = omega (arith, ap weight_of here);
  fewer = omega arith;
}
Alone-Kept host s seen i w (quits here done) at = record {
  holds = record { order = at.order; shut = at.shut ∙ ap is_returned here; after = at.after };
  counts = omega (arith, ap weight_of here);
  fewer = omega arith;
}
Alone-Kept host s seen i w (ends here) at = record {
  holds = record { order = at.order; shut = refl; after = λ _. refl };
  counts = omega (arith, ap weight_of here);
  fewer = omega arith;
}

module _ {seen : List (ℕ × GuestProperty)} {i : ℕ} {w : Watch} (at : WatchAt seen i w) where
  -- the properties that are sent when the forwarder is in a state
  sent_by : {f : Forwarder} → w.forwarder ≡ f → w.sent ≡ taken i seen ++ in_hand f
  sent_by e = at.order ∙ ap (λ f. taken i seen ++ in_hand f) e

  pub hand_over-WatchAt :
      {prop : GuestProperty}
      → w.phase ≡ offering prop
      → w.forwarder ≡ receiving
      → WatchAt seen i (hand_over prop w)
  hand_over-WatchAt {prop} offers e = record {
    order = ap (λ l. l ++ prop ∷ []) (sent_by e ∙ append-nil _);
    shut = at.shut ∙ ap is_returned offers;
    after = λ n. cc;
  }

  pub finish-WatchAt :
      w.closed ≡ true → w.forwarder ≡ receiving → WatchAt seen i (record w { forwarder = ended })
  finish-WatchAt shut e = record { order = sent_by e; shut = at.shut; after = λ _. shut }

  pub take-WatchAt :
      {prop : GuestProperty}
      → w.forwarder ≡ passing prop
      → WatchAt (seen ++ (i, prop) ∷ []) i (record w { forwarder = receiving })
  take-WatchAt {prop} e = record {
    order = sent_by e ∙ sym (append-nil _ ∙ taken_same i prop seen);
    shut = at.shut;
    after = λ n. cc;
  }

  pub other-WatchAt :
      {j : ℕ} (prop : GuestProperty) → ¬ (j ≡ i) → WatchAt (seen ++ (j, prop) ∷ []) i w
  other-WatchAt {j} prop n = record {
    order = at.order ∙ ap (λ l. l ++ in_hand w.forwarder) (sym (taken_other i j prop seen n));
    shut = at.shut;
    after = at.after;
  }

  pub done-WatchAt : WatchAt seen i (record w { done = true })
  done-WatchAt = record { order = at.order; shut = at.shut; after = at.after }
