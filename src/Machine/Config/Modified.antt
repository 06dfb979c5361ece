-- ===== src/Machine/Config/Modified.antt =====
-- The command line of `Modify`.
use go_virtualbox.Prelude.{
  ℕ, suc, ◌+◌, String, List, [], ◌∷◌, ◌++◌, ◌≡◌, refl, sym, ◌∙◌, ap, arith, append-nil, ltb,
  Bool-cases, inl, inr,
}
use go_virtualbox.CmdArgs.{
  CmdArg, CmdArgs, zero_cmd_args, append_arg, append_cmd_args, append_override,
}
use go_virtualbox.CmdArgs.Spec.{command_line}
use go_virtualbox.CmdArgs.Refine.{args-command_line}
use go_virtualbox.Go.Outcome.{ok}
use go_virtualbox.Uart.Commands.{modify_vm_cmd_args}
use go_virtualbox.Vbcmd.{proceed, Host, World, run_out_err}
use go_virtualbox.Vbcmd.Effects.{checked, outcome_of, failure_of, ran}
use go_virtualbox.Machine.Kinds.{Machine, Nic}
use go_virtualbox.Machine.Nic.{append_nic_params, append_attachment}
use go_virtualbox.Machine.Config.{
  field_args, append_all, append_boot, append_nics, machine_args, modify,
}
use go_virtualbox.Machine.Lifecycle.{refresh}

append_all_overrides :
    (xs : List (String × String)) (c : CmdArgs) → (append_all xs c).overrides ≡ c.overrides
unfolding append_all append_arg
append_all_overrides [] c = refl
append_all_overrides ((key, value) ∷ rest) c = append_all_overrides rest _

append_boot_overrides :
    (i : ℕ) (devs : List String) (c : CmdArgs) → (append_boot i devs c).overrides ≡ c.overrides
unfolding append_boot append_arg
append_boot_overrides i [] c = refl
append_boot_overrides i (dev ∷ devs) c = elim (Bool-cases (ltb 3 i)) [
  | inl past ↦ rw past refl
  | inr slot ↦ rw slot (append_boot_overrides (suc i) devs _)
]

append_attachment_overrides :
    (n : ℕ) (nic : Nic) (c : CmdArgs) → (append_attachment n nic c).overrides ≡ c.overrides
unfolding append_attachment append_arg
append_attachment_overrides n nic c = ground arith

append_nic_overrides :
    (n : ℕ) (nic : Nic) (c : CmdArgs) → (append_nic_params n nic c).overrides ≡ c.overrides
unfolding append_nic_params append_arg
append_nic_overrides n nic c = append_attachment_overrides n nic _ ∙ ground arith

append_nics_overrides :
    (i : ℕ) (nics : List Nic) (c : CmdArgs) → (append_nics i nics c).overrides ≡ c.overrides
unfolding append_nics
append_nics_overrides i [] c = refl
append_nics_overrides i (nic ∷ nics) c =
    append_nics_overrides (suc i) nics _ ∙ append_nic_overrides (i + 1) nic c

machine_args_overrides : (m : Machine) → (machine_args m).overrides ≡ []
unfolding machine_args
machine_args_overrides m =
    append_nics_overrides 0 m.nics _
    ∙ append_boot_overrides 0 m.boot_order _
    ∙ append_all_overrides (field_args m) zero_cmd_args

appended_parts :
    (extra overrides : List CmdArg) (c : CmdArgs)
    → c.overrides ≡ []
    → let d = append_override overrides (append_cmd_args extra c) in
      d.args ++ d.overrides ≡ (c.args ++ extra) ++ overrides
unfolding append_override append_cmd_args
appended_parts [] [] c h = cc (append-nil c.args)
appended_parts [] (o ∷ os) c h =
    ap (λ l. c.args ++ (l ++ o ∷ os)) h ∙ ap (λ l. l ++ o ∷ os) (sym (append-nil c.args))
appended_parts (e ∷ es) [] c h = ap (λ l. (c.args ++ e ∷ es) ++ l) h
appended_parts (e ∷ es) (o ∷ os) c h = ap (λ l. (c.args ++ e ∷ es) ++ (l ++ o ∷ os)) h

-- the words of the command, for the arguments of the serial ports and the overrides
abbrev pub modify_words : Machine → List CmdArg → List CmdArg → List String
modify_words m extra overrides =
    "modifyvm" ∷ m.name ∷ command_line (((machine_args m).args ++ extra) ++ overrides)

-- When the serial ports have arguments, `Modify` runs one command: for each key that an argument of
-- the machine, of its ports or of the overrides has, the last argument with that key. An error of
-- it is returned, and without one the machine is read again.
pub modify-command_line :
    (overrides extra : List CmdArg) (host : Host) (w : World Machine)
    → modify_vm_cmd_args w.this.uarts ≡ ok extra
    → let words = modify_words w.this extra overrides in
      modify overrides host w
      ≡ proceed (outcome_of (failure_of host words w), ran host words w) (λ _. refresh) host
unfolding modify run_out_err
modify-command_line overrides extra host w h =
    let words = modify_words w.this extra overrides in
    let line =
      args-command_line (append_override overrides (append_cmd_args extra (machine_args w.this)))
      ∙ ap command_line
          (appended_parts extra overrides (machine_args w.this) (machine_args_overrides w.this)) in
    rw h (
      rw line (
        ap (λ r. proceed r (λ _. refresh) host)
          (checked (failure_of host words w) host (ran host words w))))
