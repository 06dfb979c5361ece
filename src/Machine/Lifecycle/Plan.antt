-- ===== src/Machine/Lifecycle/Plan.antt =====
-- The commands of each operation, as a table over the kinds of states.
pub mod Done
use go_virtualbox.Prelude.{
  String, Bool, true, false, List, [], ◌∷◌, ◌++◌, ◌≡◌, refl, ◌∙◌, ap, lookup, insert, eq_iff,
  Bool-cases, inl, inr, ◌==◌, ◌||◌, if◌then◌else◌,
}
use go_virtualbox.CmdArgs.{arg_strs}
use go_virtualbox.Vbcmd.{Exec, proceed, Host, World, run}
use go_virtualbox.Vbcmd.Effects.{script, script_one, script_two, script_append}
use go_virtualbox.Machine.Kinds.{Machine, MachineState}
use go_virtualbox.Machine.Lifecycle.{
  start, start_from, start_args, save, pause, poweroff, reset, delete, unregister, is_down,
  resume_if, append_overrides,
}

-- What the library tells apart: off, with a state on disk, paused, and all else.
pub data Kind : Type 0 where
  off on_disk halted active : Kind

abbrev pub kind_by : Bool → Bool → Bool → Bool → Kind
kind_by p a s z = if p || a then off else if s then on_disk else if z then halted else active

abbrev pub kind_of : MachineState → Kind
kind_of state =
    if state == "poweroff" || state == "aborted"
    then off
    else if state == "saved"
    then on_disk
    else if state == "paused"
    then halted
    else active

pub data Operation : Type 0 where
  op_start op_save op_pause op_poweroff op_reset op_delete op_unregister : Operation

abbrev pub operate : Operation → Exec Machine (Unit {0})
operate op_start = start []
operate op_save = save
operate op_pause = pause
operate op_poweroff = poweroff
operate op_reset = reset
operate op_delete = delete
operate op_unregister = unregister

abbrev pub plan_poweroff : Kind → String → List (List String)
plan_poweroff off name = []
plan_poweroff on_disk name = []
plan_poweroff halted name = ("controlvm" ∷ name ∷ "poweroff" ∷ []) ∷ []
plan_poweroff active name = ("controlvm" ∷ name ∷ "poweroff" ∷ []) ∷ []

abbrev pub plan_start : Kind → String → List (List String)
plan_start off name = ("startvm" ∷ name ∷ "--type" ∷ "headless" ∷ []) ∷ []
plan_start on_disk name = ("startvm" ∷ name ∷ "--type" ∷ "headless" ∷ []) ∷ []
plan_start halted name = ("controlvm" ∷ name ∷ "resume" ∷ []) ∷ []
plan_start active name = []

-- the commands, in their order
abbrev pub plan : Operation → Kind → String → List (List String)
plan op_start kind name = plan_start kind name
plan op_save halted name =
    ("controlvm" ∷ name ∷ "resume" ∷ []) ∷ ("controlvm" ∷ name ∷ "savestate" ∷ []) ∷ []
plan op_save active name = ("controlvm" ∷ name ∷ "savestate" ∷ []) ∷ []
plan op_save off name = []
plan op_save on_disk name = []
plan op_pause active name = ("controlvm" ∷ name ∷ "pause" ∷ []) ∷ []
plan op_pause halted name = []
plan op_pause off name = []
plan op_pause on_disk name = []
plan op_poweroff kind name = plan_poweroff kind name
plan op_reset off name = ("controlvm" ∷ name ∷ "reset" ∷ []) ∷ []
plan op_reset on_disk name =
    ("startvm" ∷ name ∷ "--type" ∷ "headless" ∷ []) ∷ ("controlvm" ∷ name ∷ "reset" ∷ []) ∷ []
plan op_reset halted name =
    ("controlvm" ∷ name ∷ "resume" ∷ []) ∷ ("controlvm" ∷ name ∷ "reset" ∷ []) ∷ []
plan op_reset active name = ("controlvm" ∷ name ∷ "reset" ∷ []) ∷ []
plan op_delete kind name = plan_poweroff kind name ++ ("unregistervm" ∷ name ∷ "--delete" ∷ []) ∷ []
plan op_unregister kind name = plan_poweroff kind name ++ ("unregistervm" ∷ name ∷ []) ∷ []

-- the default command line of `startvm`
pub start_args-default :
    (name : String) → start_args name [] ≡ "startvm" ∷ name ∷ "--type" ∷ "headless" ∷ []
unfolding start_args append_overrides lookup arg_strs insert
start_args-default name = refl

-- the four tests of a state
abbrev pub TestsAre : MachineState → Bool → Bool → Bool → Bool → Type 0
TestsAre state p a s z =
    ((state == "poweroff") ≡ p)
    × ((state == "aborted") ≡ a)
    × ((state == "saved") ≡ s)
    × ((state == "paused") ≡ z)

-- The state is one of those that have a name, or none of them.
pub data StateCase (state : MachineState) : Type 0 where
  is_poweroff : TestsAre state true false false false → StateCase state
  is_aborted : TestsAre state false true false false → StateCase state
  is_saved : TestsAre state false false true false → StateCase state
  is_paused : TestsAre state false false false true → StateCase state
  is_active : TestsAre state false false false false → StateCase state

pub state_case : (state : MachineState) → StateCase state
state_case state = elim (Bool-cases (state == "poweroff")) [
  | inl e ↦ is_poweroff (rw ((eq_iff state "poweroff").0 e) (refl, refl, refl, refl))
  | inr n1 ↦ elim (Bool-cases (state == "aborted")) [
    | inl e ↦ is_aborted (rw ((eq_iff state "aborted").0 e) (refl, refl, refl, refl))
    | inr n2 ↦ elim (Bool-cases (state == "saved")) [
      | inl e ↦ is_saved (rw ((eq_iff state "saved").0 e) (refl, refl, refl, refl))
      | inr n3 ↦ elim (Bool-cases (state == "paused")) [
        | inl e ↦ is_paused (rw ((eq_iff state "paused").0 e) (refl, refl, refl, refl))
        | inr n4 ↦ is_active (n1, n2, n3, n4)
      ]
    ]
  ]
]

module _ (host : Host) (w : World Machine) where
  pub start-plan : start [] host w ≡ script (plan_start (kind_of w.this.state) w.this.name) host w
  unfolding start start_from script
  start-plan = elim (state_case w.this.state) [
    | is_poweroff (a, b, c, d) ↦
        rw (d, c, b, a) (rw (start_args-default w.this.name) (script_one _ host w))
    | is_aborted (a, b, c, d) ↦
        rw (d, c, b, a) (rw (start_args-default w.this.name) (script_one _ host w))
    | is_saved (a, b, c, d) ↦
        rw (d, c, b, a) (rw (start_args-default w.this.name) (script_one _ host w))
    | is_paused (a, b, c, d) ↦ rw (d, c, b, a) (script_one _ host w)
    | is_active (a, b, c, d) ↦ rw (d, c, b, a) refl
  ]

  poweroff-plan : poweroff host w ≡ script (plan_poweroff (kind_of w.this.state) w.this.name) host w
  unfolding poweroff is_down script
  poweroff-plan = elim (state_case w.this.state) [
    | is_poweroff (a, b, c, d) ↦ rw (d, c, b, a) refl
    | is_aborted (a, b, c, d) ↦ rw (d, c, b, a) refl
    | is_saved (a, b, c, d) ↦ rw (d, c, b, a) refl
    | is_paused (a, b, c, d) ↦ rw (d, c, b, a) (script_one _ host w)
    | is_active (a, b, c, d) ↦ rw (d, c, b, a) (script_one _ host w)
  ]

  save-plan : save host w ≡ script (plan op_save (kind_of w.this.state) w.this.name) host w
  unfolding save is_down script resume_if start start_from
  save-plan = elim (state_case w.this.state) [
    | is_poweroff (a, b, c, d) ↦ rw (d, c, b, a) refl
    | is_aborted (a, b, c, d) ↦ rw (d, c, b, a) refl
    | is_saved (a, b, c, d) ↦ rw (d, c, b, a) refl
    | is_paused (a, b, c, d) ↦ rw (d, c, b, a) (rw d (script_two _ _ host w))
    | is_active (a, b, c, d) ↦ rw (d, c, b, a) (script_one _ host w)
  ]

  pause-plan : pause host w ≡ script (plan op_pause (kind_of w.this.state) w.this.name) host w
  unfolding pause is_down script
  pause-plan = elim (state_case w.this.state) [
    | is_poweroff (a, b, c, d) ↦ rw (d, c, b, a) refl
    | is_aborted (a, b, c, d) ↦ rw (d, c, b, a) refl
    | is_saved (a, b, c, d) ↦ rw (d, c, b, a) refl
    | is_paused (a, b, c, d) ↦ rw (d, c, b, a) refl
    | is_active (a, b, c, d) ↦ rw (d, c, b, a) (script_one _ host w)
  ]

  reset-plan : reset host w ≡ script (plan op_reset (kind_of w.this.state) w.this.name) host w
  unfolding reset script resume_if start start_from
  reset-plan = elim (state_case w.this.state) [
    | is_poweroff (a, b, c, d) ↦ rw (d, c, b, a) (script_one _ host w)
    | is_aborted (a, b, c, d) ↦ rw (d, c, b, a) (script_one _ host w)
    | is_saved (a, b, c, d) ↦
        rw (d, c, b, a) (rw (d, c) (rw (start_args-default w.this.name) (script_two _ _ host w)))
    | is_paused (a, b, c, d) ↦ rw (d, c, b, a) (rw d (script_two _ _ host w))
    | is_active (a, b, c, d) ↦ rw (d, c, b, a) (script_one _ host w)
  ]

  delete-plan : delete host w ≡ script (plan op_delete (kind_of w.this.state) w.this.name) host w
  unfolding delete
  delete-plan =
      ap (λ r. proceed r (λ _. run ("unregistervm" ∷ w.this.name ∷ "--delete" ∷ [])) host)
        poweroff-plan
      ∙ script_append (plan_poweroff (kind_of w.this.state) w.this.name) _ host w

  unregister-plan :
      unregister host w ≡ script (plan op_unregister (kind_of w.this.state) w.this.name) host w
  unfolding unregister
  unregister-plan =
      ap (λ r. proceed r (λ _. run ("unregistervm" ∷ w.this.name ∷ [])) host) poweroff-plan
      ∙ script_append (plan_poweroff (kind_of w.this.state) w.this.name) _ host w

-- Each operation runs the commands of its plan for the state that the machine has, in their order
-- and up to the first that fails: it is quiet where the plan is empty, and a machine that runs or
-- is paused is unregistered only after the command that powers it off has succeeded.
pub operate-plan :
    (op : Operation) (host : Host) (w : World Machine)
    → operate op host w ≡ script (plan op (kind_of w.this.state) w.this.name) host w
operate-plan op_start = start-plan
operate-plan op_save = save-plan
operate-plan op_pause = pause-plan
operate-plan op_poweroff = poweroff-plan
operate-plan op_reset = reset-plan
operate-plan op_delete = delete-plan
operate-plan op_unregister = unregister-plan
