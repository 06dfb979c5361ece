-- ===== src/Machine/Lifecycle/Exclusive.antt =====
-- machine.go: the mutex of `GetMachine`, for any number of goroutines that call it. A step is one of a
-- caller: it locks the mutex, starts showvminfo, gets its reply, or unlocks.
use mathlib.Core.Path.{subst}
use go_virtualbox.Prelude.{
  ℕ, Bool, true, false, List, [], ◌∷◌, ◌++◌, ◌≡◌, ◌≢◌, refl, sym, ap, ◌∙◌, update, update_all,
  update_other, update_same, append_assoc,
}
use native.Mathlib.Decide.{ℕ_discrete}

-- before mutex.Lock(), before the command, in it, and before mutex.Unlock()
pub data Caller : Type 0 where
  outside locked running finished : Caller

pub data Event : Type 0 where
  begun ended : ℕ → Event

-- `trace` is when showvminfo began and ended, with the callers.
pub record Callers : Type 0 where
  pub mutex : Bool
  pub at : ℕ → Caller
  pub trace : List Event

abbrev pub nobody : Callers
nobody = record { mutex = false; at = λ i. outside; trace = [] }

pub data Step (s : Callers) : Callers → Type 0 where
  locks :
      (i : ℕ)
      → s.at i ≡ outside
      → s.mutex ≡ false
      → Step s (record s { mutex = true; at = update s.at i locked })
  begins :
      (i : ℕ)
      → s.at i ≡ locked
      → Step s (record s { at = update s.at i running; trace = s.trace ++ begun i ∷ [] })
  ends :
      (i : ℕ)
      → s.at i ≡ running
      → Step s (record s { at = update s.at i finished; trace = s.trace ++ ended i ∷ [] })
  unlocks :
      (i : ℕ) → s.at i ≡ finished → Step s (record s { mutex = false; at = update s.at i outside })

pub data Reach : Callers → Type 0 where
  begin : Reach nobody
  later : {s t : Callers} → Reach s → Step s t → Reach t

-- Each run of showvminfo has ended before the next begins.
pub data OneByOne : List Event → Type 0 where
  none_yet : OneByOne []
  one_more :
      {trace : List Event} (i : ℕ) → OneByOne trace → OneByOne (trace ++ begun i ∷ ended i ∷ [])

-- the trace, by where the owner of the mutex is
abbrev pub Owned : ℕ → Caller → List Event → Type 0
Owned i outside trace = ⊥
Owned i locked trace = OneByOne trace
Owned i running trace = (past : List Event) × (trace ≡ past ++ begun i ∷ []) × OneByOne past
Owned i finished trace = OneByOne trace

-- The mutex is free and all callers are outside, or one caller has it and all others are outside.
pub data IsExclusive (s : Callers) : Type 0 where
  free : s.mutex ≡ false → ((j : ℕ) → s.at j ≡ outside) → OneByOne s.trace → IsExclusive s
  held :
      (i : ℕ)
      → s.mutex ≡ true
      → ((j : ℕ) → ¬ (i ≡ j) → s.at j ≡ outside)
      → Owned i (s.at i) s.trace
      → IsExclusive s

-- A caller that is not outside is the owner.
owner_is :
    (s : Callers) (i j : ℕ) {c : Caller}
    → ((k : ℕ) → ¬ (i ≡ k) → s.at k ≡ outside)
    → s.at j ≡ c
    → c ≢ outside
    → i ≡ j
owner_is s i j others here there = elim (ℕ_discrete i j) [
  | yes same ↦ same
  | no other ↦ absurd (there (sym here ∙ others j other))
]

-- The owner goes on.
moves :
    (s : Callers) (i : ℕ) (c : Caller) (trace : List Event)
    → s.mutex ≡ true
    → ((j : ℕ) → ¬ (i ≡ j) → s.at j ≡ outside)
    → Owned i c trace
    → IsExclusive (record s { at = update s.at i c; trace = trace })
moves s i c trace taken others owned =
    held i taken (λ j n. update_other s.at i j c n ∙ others j n)
      (subst (λ d. Owned i d trace) (sym (update_same s.at i c)) owned)

-- what is known of a caller that is not outside
record Owns (s : Callers) (i : ℕ) (c : Caller) : Type 0 where
  pub taken : s.mutex ≡ true
  pub others : (j : ℕ) → ¬ (i ≡ j) → s.at j ≡ outside
  pub owned : Owned i c s.trace

caller-Owns :
    (s : Callers) (i : ℕ) (c : Caller) → IsExclusive s → s.at i ≡ c → c ≢ outside → Owns s i c
caller-Owns s i c (free open_ all seq) here there = absurd (there (sym here ∙ all i))
caller-Owns s i c (held k taken others owned) here there =
    let same = owner_is s k i others here there in
    record {
      taken = taken;
      others = subst (λ m. (j : ℕ) → ¬ (m ≡ j) → s.at j ≡ outside) same others;
      owned =
          subst (λ d. Owned i d s.trace) here (subst (λ m. Owned m (s.at m) s.trace) same owned);
    }

lock-IsExclusive :
    (s : Callers) (i : ℕ)
    → s.mutex ≡ false
    → IsExclusive s
    → IsExclusive (record s { mutex = true; at = update s.at i locked })
lock-IsExclusive s i open_ (free e all seq) =
    held i refl (λ j n. update_other s.at i j locked n ∙ all j)
      (subst (λ d. Owned i d s.trace) (sym (update_same s.at i locked)) seq)
lock-IsExclusive s i open_ (held k taken others owned) = cc

Step-IsExclusive : {s t : Callers} → Step s t → IsExclusive s → IsExclusive t
Step-IsExclusive {s} (locks i here open_) old = lock-IsExclusive s i open_ old
Step-IsExclusive {s} (begins i here) old =
    let own = caller-Owns s i locked old here (λ e. cc) in
    moves s i running (s.trace ++ begun i ∷ []) own.taken own.others (s.trace, refl, own.owned)
Step-IsExclusive {s} (ends i here) old =
    let own = caller-Owns s i running old here (λ e. cc) in
    let (past, split, seq) = own.owned in
    let longer : s.trace ++ ended i ∷ [] ≡ past ++ begun i ∷ ended i ∷ [] =
      ap (λ t. t ++ ended i ∷ []) split ∙ append_assoc past (begun i ∷ []) (ended i ∷ []) in
    moves s i finished (s.trace ++ ended i ∷ []) own.taken own.others
      (subst OneByOne (sym longer) (one_more i seq))
Step-IsExclusive {s} (unlocks i here) old =
    let own = caller-Owns s i finished old here (λ e. cc) in
    free refl (update_all (λ j c. c ≡ outside) s.at i outside own.others refl) own.owned

-- However many goroutines call GetMachine and in whichever order they run, each run of showvminfo
-- has ended before the next one begins, at most the last one has not ended yet, and a caller that is
-- between the lock and the unlock is the only one there.
pub Reach-IsExclusive : {s : Callers} → Reach s → IsExclusive s
Reach-IsExclusive begin = free refl (λ j. refl) none_yet
Reach-IsExclusive (later reach step) = Step-IsExclusive step (Reach-IsExclusive reach)

-- When the mutex is taken, its owner can go on, so that every caller gets its turn: some step is
-- possible in each reachable state.
pub Reach-goes_on : {s : Callers} → Reach s → (t : Callers) × Step s t
Reach-goes_on {s} reach = next (Reach-IsExclusive reach)
  where
    owner_next : (i : ℕ) (c : Caller) → s.at i ≡ c → Owned i c s.trace → (t : Callers) × Step s t
    owner_next i outside here owned = absurd owned
    owner_next i locked here owned = (_, begins i here)
    owner_next i running here owned = (_, ends i here)
    owner_next i finished here owned = (_, unlocks i here)

    next : IsExclusive s → (t : Callers) × Step s t
    next (free open_ all seq) = (_, locks 0 (all 0) open_)
    next (held i taken others owned) = owner_next i (s.at i) refl owned
