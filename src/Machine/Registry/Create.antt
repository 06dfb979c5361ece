-- ===== src/Machine/Registry/Create.antt =====
-- machine.go: what `CreateMachine` runs and returns.
use go_virtualbox.Prelude.{
  String, true, false, none, some, List, [], ◌∷◌, ◌≡◌, ◌⊎◌, ◌==◌, if◌then◌else◌, elem, map,
}
use go_virtualbox.Go.Outcome.{
  Outcome, ok, err, panic, Panic, Error, Failure, machine_exist, bad_argument, exec_failed,
}
use go_virtualbox.Vbcmd.{Host, World}
use go_virtualbox.Vbcmd.Effects.{failure_of, ran}
use go_virtualbox.Machine.Kinds.{Machine}
use go_virtualbox.Machine.Lifecycle.{get_machine}
use go_virtualbox.Machine.Registry.{list_machines}

-- the command that makes a machine known to VirtualBox, in its base folder when one is given
abbrev pub create_words : String → String → String → List String
create_words uuid name basefolder =
    "createvm"
    ∷ "--uuid"
    ∷ uuid
    ∷ "--name"
    ∷ name
    ∷ "--register"
    ∷ (if basefolder == "" then [] else "--basefolder" ∷ basefolder ∷ [])

-- How the creation of a machine may go from a world, with the result and the world after it.
pub data Creates {S : Type 0} (uuid name basefolder : String) (host : Host) (w : World S)
    : Outcome Machine → World S → Type 0 where
  is_refused :
      (name ≡ "") ⊎ (uuid ≡ "") → Creates uuid name basefolder host w (err (bad_argument name)) w
  list_fails :
      {e : Error} {v : World S}
      → list_machines host w ≡ (err e, v)
      → Creates uuid name basefolder host w (err e) v
  list_panics :
      {p : Panic} {v : World S}
      → list_machines host w ≡ (panic p, v)
      → Creates uuid name basefolder host w (panic p) v
  is_known :
      {ms : List Machine} {v : World S}
      → list_machines host w ≡ (ok ms, v)
      → elem name (map (λ m. m.name) ms) ≡ true
      → Creates uuid name basefolder host w (err machine_exist) v
  create_fails :
      {ms : List Machine} {f : Failure} {v : World S}
      → list_machines host w ≡ (ok ms, v)
      → elem name (map (λ m. m.name) ms) ≡ false
      → failure_of host (create_words uuid name basefolder) v ≡ some f
      → Creates uuid name basefolder host w
          (err (exec_failed f))
          (ran host (create_words uuid name basefolder) v)
  is_created :
      {ms : List Machine} {o : Outcome Machine} {v u : World S}
      → list_machines host w ≡ (ok ms, v)
      → elem name (map (λ m. m.name) ms) ≡ false
      → failure_of host (create_words uuid name basefolder) v ≡ none
      → get_machine name host (ran host (create_words uuid name basefolder) v) ≡ (o, u)
      → Creates uuid name basefolder host w o u

module _ {S : Type 0} (uuid name basefolder : String) (host : Host) (w : World S) where
  abbrev Result : Outcome Machine × World S → Type 0
  Result r = Creates uuid name basefolder host w r.0 r.1

  abbrev words : List String
  words = create_words uuid name basefolder
