-- ===== src/Vbhostd/System/Harmless.antt =====
-- cmd/vbhostd: the programs that run, whatever the guests ask for.
use mathlib.Core.Path.{subst}
use go_virtualbox.Prelude.{
  ℕ, String, Bool, true, List, [], ◌∷◌, ◌++◌, ◌≡◌, refl, ap, ◌∙◌, ◌==◌, eq_iff, Bool-cases, inl,
  inr, All, elem, append_assoc, append-nil,
}
use go_virtualbox.Go.Outcome.{ok}
use go_virtualbox.Vbcmd.{Host, World, Invocation}
use go_virtualbox.Vbcmd.Logs.{Adds, Adds-none, Adds-one, Adds-trans}
use go_virtualbox.Guest.{GuestProperty}
use go_virtualbox.Guest.Logged.{outer_wait, inner_wait, wait_guest_property-Adds}
use go_virtualbox.Guest.Waiter.{Waiter, Alone, reports, fails, quits, ends}
use go_virtualbox.Vbhostd.{Line, handle}
use go_virtualbox.Vbhostd.Allowed.{is_allowed, opener, open_value-Runs}
use go_virtualbox.Vbhostd.System.Names.{AreChosen, Reach-AreChosen}
use go_virtualbox.Vbhostd.System.{
  State, pattern, initial, Step, starts, loops, waits, sends, finishes, handles, leaves, closes,
  closes_again, selects, completes, exits_completed, exits_timeout, Reach, begin, later,
}

-- The loop over the properties has taken this one.
pub record HasSeen (seen : List (ℕ × GuestProperty)) (i : ℕ) (prop : GuestProperty) : Type 0 where
  pub before : List (ℕ × GuestProperty)
  pub behind : List (ℕ × GuestProperty)
  pub split : seen ≡ before ++ (i, prop) ∷ behind

-- a wait for one of the machines, or the opener of an allowed address that a guest has asked for
pub data Harmless (host : Host) (vms : List String) (seen : List (ℕ × GuestProperty))
    : Invocation → Type 0 where
  waits_for :
      (vm : String) → elem vm vms ≡ true → Harmless host vms seen (outer_wait host vm pattern)
  waits_inside : Harmless host vms seen (inner_wait host pattern)
  opens :
      (i : ℕ) (prop : GuestProperty)
      → HasSeen seen i prop
      → prop.name ≡ "vbhostd/open"
      → is_allowed prop.value ≡ true
      → Harmless host vms seen (opener host.os prop.value)

module _ (host : Host) (vms : List String) where
  more-Harmless :
      (seen : List (ℕ × GuestProperty)) (e : ℕ × GuestProperty) (inv : Invocation)
      → Harmless host vms seen inv
      → Harmless host vms (seen ++ e ∷ []) inv
  more-Harmless seen e inv (waits_for vm chosen) = waits_for vm chosen
  more-Harmless seen e inv waits_inside = waits_inside
  more-Harmless seen e inv (opens i prop has name allowed) =
      opens i prop
        (record {
          before = has.before;
          behind = has.behind ++ e ∷ [];
          split =
              ap (λ l. l ++ e ∷ []) has.split
              ∙ append_assoc has.before ((i, prop) ∷ has.behind) (e ∷ []);
        })
        name allowed

  more-All :
      (seen : List (ℕ × GuestProperty)) (e : ℕ × GuestProperty) (log : List Invocation)
      → All (Harmless host vms seen) log
      → All (Harmless host vms (seen ++ e ∷ [])) log
  more-All seen e [] h = tt
  more-All seen e (inv ∷ log) (h, hs) = (more-Harmless seen e inv h, more-All seen e log hs)

  Alone-Adds :
      {seen : List (ℕ × GuestProperty)} {vm : String} {u v : Waiter (List Line)}
      → elem vm vms ≡ true
      → Alone host vm pattern u v
      → Adds (Harmless host vms seen) u.world v.world
  Alone-Adds {seen} {vm} {u} chosen (reports at told) =
      subst (λ r. Adds (Harmless host vms seen) u.world r.1) told
        (wait_guest_property-Adds (Harmless host vms seen) vm pattern host u.world
          (waits_for vm chosen) waits_inside)
  Alone-Adds {seen} {vm} {u} chosen (fails at told) =
      subst (λ r. Adds (Harmless host vms seen) u.world r.1) told
        (wait_guest_property-Adds (Harmless host vms seen) vm pattern host u.world
          (waits_for vm chosen) waits_inside)
  Alone-Adds chosen (quits at shut) = Adds-none _ refl
  Alone-Adds chosen (ends at) = Adds-none _ refl

  handle-Adds :
      (P : Invocation → Type 0) (prop : GuestProperty) (w : World (List Line))
      → (prop.name ≡ "vbhostd/open" → is_allowed prop.value ≡ true → P (opener host.os prop.value))
      → Adds P w (handle prop host w).1
  unfolding handle
  handle-Adds P prop w asks = elim (Bool-cases (prop.name == "vbhostd/open")) [
    | inl name ↦
        let runs = open_value-Runs prop.value host w in
        rw (name, runs.result)
          (elim (Bool-cases (is_allowed prop.value)) [
            | inl allowed ↦
                Adds-one P _ (asks ((eq_iff _ _).0 name) allowed) (rw allowed at runs.logged)
            | inr refused ↦ Adds-none P ((rw refused at runs.logged) ∙ append-nil w.log)
          ])
    | inr other ↦ elim (Bool-cases (prop.name == "vbhostd/error")) [
      | inl error ↦ rw (other, error) (Adds-none P refl)
      | inr fine ↦ elim (Bool-cases (prop.name == "")) [
        | inl empty ↦ rw (other, fine, empty) (Adds-none P refl)
        | inr more ↦ rw (other, fine, more) (Adds-none P refl)
      ]
    ]
  ]

  take-Adds :
      (start : World (List Line)) (s : State) (i : ℕ) (prop : GuestProperty) {more : Bool}
      {after : World (List Line)}
      → handle prop host s.world ≡ (ok more, after)
      → Adds (Harmless host vms s.seen) start s.world
      → Adds (Harmless host vms (s.seen ++ (i, prop) ∷ [])) start after
  take-Adds start s i prop told old =
      Adds-trans _
        (record {
          added = old.added;
          logged = old.logged;
          all = more-All s.seen (i, prop) old.added old.all;
        })
        (subst (λ r. Adds (Harmless host vms (s.seen ++ (i, prop) ∷ [])) s.world r.1) told
          (handle-Adds (Harmless host vms (s.seen ++ (i, prop) ∷ [])) prop s.world
            (opens i prop (record { before = s.seen; behind = []; split = refl }))))

  Step-Adds :
      {s t : State} (start : World (List Line))
      → AreChosen vms s
      → Step host s t
      → Adds (Harmless host vms s.seen) start s.world
      → Adds (Harmless host vms t.seen) start t.world
  Step-Adds start chosen (starts e) old = old
  Step-Adds start chosen (loops e) old = old
  Step-Adds start chosen (waits i live below step) old =
      Adds-trans _ old (Alone-Adds (chosen.each i below) step)
  Step-Adds start chosen (sends i live below offers e) old = old
  Step-Adds start chosen (finishes i live below shut e) old = old
  Step-Adds {s} start chosen (handles {prop} i e below holds told) old =
      take-Adds start s i prop told old
  Step-Adds {s} start chosen (leaves {prop} i e below holds told) old =
      take-Adds start s i prop told old
  Step-Adds start chosen (closes i e visit open_) old = old
  Step-Adds start chosen (closes_again i e visit shut) old = old
  Step-Adds start chosen (selects e) old = old
  Step-Adds start chosen (completes e none_left) old = old
  Step-Adds start chosen (exits_completed e told) old = Adds-trans _ old (Adds-none _ refl)
  Step-Adds start chosen (exits_timeout e) old = Adds-trans _ old (Adds-none _ refl)

  -- In every run of vbhostd, in any order of its goroutines and whatever the guests and VBoxManage
  -- say, each program that is run is the wait for a change of a property of one of the machines that
  -- `main` has chosen (or the wait of the guest that vbhostd runs in), or the opener of an
  -- address that begins with `http:`, `https:` or `mailto:` and that the loop has taken from a guest
  -- as the value of `vbhostd/open`.
  pub Reach-Harmless :
      {world : World (List Line)} {s : State}
      → Reach host (initial vms world) s
      → Adds (Harmless host vms s.seen) world s.world
  Reach-Harmless begin = Adds-none _ refl
  Reach-Harmless {world = world} (later reach step) =
      Step-Adds world (Reach-AreChosen host vms reach) step (Reach-Harmless reach)
