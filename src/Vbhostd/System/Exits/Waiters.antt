-- ===== src/Vbhostd/System/Exits/Waiters.antt =====
-- cmd/vbhostd: the waiters return one after the other while `main` waits.
use mathlib.Core.Path.{subst}
use native.Mathlib.Decide.{ℕ_discrete}
use go_virtualbox.Prelude.{
  ℕ, zero, suc, ◌≤◌, ◌<◌, String, true, List, ◌≡◌, refl, sym, ap, ◌∙◌, arith, inl, inr, update_same,
  update_other,
}
use go_virtualbox.Vbcmd.{Host}
use go_virtualbox.Guest.Waiter.{returned, Waiter, Alone, Run, stay, go_on}
use go_virtualbox.Guest.Waiter.Moves.{done-Leaves}
use go_virtualbox.Vbhostd.{Line}
use go_virtualbox.Vbhostd.System.{
  selecting, State, pattern, waiter_at, with_waiter, put_waiter, Step, waits, Reach, begin, later,
  is_live,
}

module _ (host : Host) where
  pub Reach-trans : {s t u : State} → Reach host s t → Reach host t u → Reach host s u
  Reach-trans first begin = first
  Reach-trans first (later second step) = later (Reach-trans first second) step

  -- Only the machine at a place has moved, and `main` stands in the select.
  pub record Moved (s : State) (i : ℕ) (v : Waiter (List Line)) : Type 0 where
    pub end : State
    pub run : Reach host s end
    pub here : waiter_at end (end.watch i) ≡ v
    pub others : (j : ℕ) → ¬ (i ≡ j) → end.watch j ≡ s.watch j
    pub same_size : end.size ≡ s.size
    pub selects : end.main ≡ selecting

  -- What a waiter does alone, it does among the others.
  run-Moved :
      {vm : String} {u v : Waiter (List Line)} (s : State) (i : ℕ)
      → s.main ≡ selecting
      → i < s.size
      → (s.watch i).vm ≡ vm
      → waiter_at s (s.watch i) ≡ u
      → Run host vm pattern u v
      → Moved s i v
  run-Moved s i e below name at stay = record {
    end = s;
    run = begin;
    here = at;
    others = λ j n. refl;
    same_size = refl;
    selects = e;
  }
  run-Moved {vm} {u} s i e below name at (go_on {v = next} step run) =
      let t : State = put_waiter s i next in
      let there : t.watch i ≡ with_waiter (s.watch i) next = update_same s.watch i _ in
      let rest = run-Moved t i e below (ap (λ w. w.vm) there ∙ name) (ap (waiter_at t) there) run in
      record {
        end = rest.end;
        run = Reach-trans (later begin first) rest.run;
        here = rest.here;
        others = λ j n. rest.others j n ∙ update_other s.watch i j _ n;
        same_size = rest.same_size;
        selects = rest.selects;
      }
    where
      first : Step host s (put_waiter s i next)
      first = waits i (ap is_live e) below (
          subst (λ v. Alone host (s.watch i).vm pattern v next) (sym at)
            (subst (λ n. Alone host n pattern u next) (sym name) step))

  -- The waiter at a place has returned, and only it has moved.
  pub record Returned (s : State) (i : ℕ) : Type 0 where
    pub end : State
    pub run : Reach host s end
    pub is_back : (end.watch i).phase ≡ returned
    pub others : (j : ℕ) → ¬ (i ≡ j) → end.watch j ≡ s.watch j
    pub same_size : end.size ≡ s.size
    pub selects : end.main ≡ selecting

  one-Returned :
      (s : State) (i : ℕ) → s.main ≡ selecting → i < s.size → (s.watch i).done ≡ true → Returned s i
  one-Returned s i e below shut =
      elim (done-Leaves host (s.watch i).vm pattern (waiter_at s (s.watch i)) shut) [
        | inl back ↦ record {
          end = s;
          run = begin;
          is_back = back;
          others = λ j n. refl;
          same_size = refl;
          selects = e;
        }
        | inr leaves ↦
            let moved = run-Moved s i e below refl refl leaves.run in
            record {
              end = moved.end;
              run = moved.run;
              is_back = ap (λ v. v.phase) moved.here ∙ leaves.is_returned;
              others = moved.others;
              same_size = moved.same_size;
              selects = moved.selects;
            }
      ]

  -- The waiters of the first places have returned; the others have not moved.
  pub record AllReturned (s : State) (n : ℕ) : Type 0 where
    pub end : State
    pub run : Reach host s end
    pub are_back : (i : ℕ) → i < n → (end.watch i).phase ≡ returned
    pub others : (i : ℕ) → n ≤ i → end.watch i ≡ s.watch i
    pub same_size : end.size ≡ s.size
    pub selects : end.main ≡ selecting

  pub first-AllReturned :
      (s : State) (n : ℕ)
      → s.main ≡ selecting
      → n ≤ s.size
      → ((i : ℕ) → i < s.size → (s.watch i).done ≡ true)
      → AllReturned s n
  first-AllReturned s zero e fits shut = record {
    end = s;
    run = begin;
    are_back = λ i below. absurd (omega (arith, below));
    others = λ i above. refl;
    same_size = refl;
    selects = e;
  }
  first-AllReturned s (suc n) e fits shut =
      let some_back = first-AllReturned s n e (omega (arith, fits)) shut in
      let t = some_back.end in
      let same = some_back.others n (omega arith) in
      let one =
        one-Returned t n some_back.selects (omega (arith, fits, some_back.same_size))
          (ap (λ w. w.done) same ∙ shut n (omega (arith, fits))) in
      record {
        end = one.end;
        run = Reach-trans some_back.run one.run;
        are_back = λ i below. elim (ℕ_discrete n i) [
          | yes last ↦ subst (λ k. (one.end.watch k).phase ≡ returned) last one.is_back
          | no n_other ↦
              ap (λ w. w.phase) (one.others i n_other)
              ∙ some_back.are_back i (omega (arith, below, n_other))
        ];
        others = λ i above.
            one.others i (λ last. omega (arith, last, above))
            ∙ some_back.others i (omega (arith, above));
        same_size = one.same_size ∙ some_back.same_size;
        selects = one.selects;
      }
