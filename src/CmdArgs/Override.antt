-- ===== src/CmdArgs/Override.antt =====
-- What an override does to the command line that `Args` returns.
use mathlib.Core.List.{flat_map}
use mathlib.Core.Path.{ap₂, fun_ext}
use go_virtualbox.Prelude.{
  String, Bool, false, not, some, List, [], ◌∷◌, ◌++◌, ◌≡◌, refl, arith, if◌then◌else◌, ◌==◌,
  eq_iff, eq_refl, keep, keep-append, append-nil, append_assoc, sym, ◌∙◌, ap,
}
use go_virtualbox.CmdArgs.{
  CmdArg, CmdArgs, arg_strs, arg_at, args, append_override, new_cmd_arg_deleted,
}
use go_virtualbox.CmdArgs.Spec.{last_arg, first_keys, without, has_key, command_line}
use go_virtualbox.CmdArgs.Refine.{args-command_line}

last_arg-concat :
    (j : String) (xs : List CmdArg) (a : CmdArg)
    → last_arg j (xs ++ a ∷ []) ≡ (if a.k == j then some a else last_arg j xs)
last_arg-concat j [] a = refl
last_arg-concat j (x ∷ xs) a = ground (arith, last_arg-concat j xs a)

without-append :
    (key : String) (xs ys : List String) → without key (xs ++ ys) ≡ without key xs ++ without key ys
without-append key [] ys = refl
without-append key (x ∷ xs) ys = ground (arith, without-append key xs ys)

abbrev pub new_key : Bool → String → List String
new_key old key = if old then [] else key ∷ []

first_keys-concat :
    (xs : List CmdArg) (a : CmdArg)
    → first_keys (xs ++ a ∷ []) ≡ first_keys xs ++ new_key (has_key a.k xs) a.k
first_keys-concat [] a = refl
first_keys-concat (x ∷ xs) a = ground (
  arith,
  eq_iff x.k a.k,
  first_keys-concat xs a,
  without-append x.k (first_keys xs) (new_key (has_key a.k xs) a.k),
  append-nil (without x.k (first_keys xs)),
)

all-override :
    (c : CmdArgs) (a : CmdArg)
    → args (append_override (a ∷ []) c) ≡ command_line ((c.args ++ c.overrides) ++ a ∷ [])
unfolding append_override
all-override c a =
    args-command_line (append_override (a ∷ []) c)
    ∙ ap command_line (sym (append_assoc c.args c.overrides (a ∷ [])))

-- the parts of one key when `a` overrides the list
abbrev pub overridden : CmdArg → List CmdArg → String → List String
overridden a xs j = if a.k == j then arg_strs a else arg_strs (arg_at (last_arg j xs))

-- One more override replaces the parts of its key where the key stands, or adds them at the end if
-- the key is new; the parts of the other keys and their order stay.
pub args-append_override :
    (c : CmdArgs) (a : CmdArg)
    → args (append_override (a ∷ []) c)
      ≡ flat_map
          (overridden a (c.args ++ c.overrides))
          (first_keys (c.args ++ c.overrides) ++ new_key (has_key a.k (c.args ++ c.overrides)) a.k)
args-append_override c a =
    let xs = c.args ++ c.overrides in
    all-override c a
    ∙ unfold command_line in
      ap₂ flat_map (fun_ext (λ j. ground (arith, last_arg-concat j xs a))) (first_keys-concat xs a)

abbrev pub drop_key : String → List CmdArg → List CmdArg
drop_key key = keep (λ a. not (key == a.k))

-- the same arguments and overrides, those of one key left out
abbrev pub drop_keys : String → CmdArgs → CmdArgs
drop_keys key c = record { args = drop_key key c.args; overrides = drop_key key c.overrides }

last_arg-drop_key :
    (key j : String) (xs : List CmdArg)
    → (key == j) ≡ false
    → last_arg j (drop_key key xs) ≡ last_arg j xs
last_arg-drop_key key j [] h = refl
last_arg-drop_key key j (x ∷ xs) h =
    ground (arith, eq_iff key x.k, eq_iff x.k j, eq_iff key j, last_arg-drop_key key j xs h)

without_swap :
    (a b : String) (xs : List String) → without a (without b xs) ≡ without b (without a xs)
without_swap a b [] = refl
without_swap a b (x ∷ xs) = ground (arith, without_swap a b xs)

without_twice : (a : String) (xs : List String) → without a (without a xs) ≡ without a xs
without_twice a [] = refl
without_twice a (x ∷ xs) = ground (arith, without_twice a xs)

first_keys-drop_key :
    (key : String) (xs : List CmdArg) → first_keys (drop_key key xs) ≡ without key (first_keys xs)
first_keys-drop_key key [] = refl
first_keys-drop_key key (x ∷ xs) = ground (
  arith,
  eq_iff key x.k,
  first_keys-drop_key key xs,
  without_swap x.k key (first_keys xs),
  without_twice key (first_keys xs),
)

flat_map-without {ℓ} :
    {A : Type ℓ} (key : String) (f g : String → List A) (js : List String)
    → f key ≡ []
    → ((j : String) → (key == j) ≡ false → f j ≡ g j)
    → flat_map f js ≡ flat_map g (without key js)
unfolding flat_map
flat_map-without key f g [] e h = refl
flat_map-without key f g (j ∷ js) e h =
    ground (arith, eq_iff key j, h j, flat_map-without key f g js e h)

flat_map-append {ℓ} :
    {A : Type ℓ} (f : String → List A) (xs ys : List String)
    → flat_map f (xs ++ ys) ≡ flat_map f xs ++ flat_map f ys
unfolding flat_map
flat_map-append f [] ys = refl
flat_map-append f (x ∷ xs) ys = simp (flat_map-append f xs ys, append_assoc)

new_key-nil {ℓ} :
    {A : Type ℓ} (f : String → List A) (old : Bool) (key : String)
    → f key ≡ []
    → flat_map f (new_key old key) ≡ []
unfolding flat_map
new_key-nil f old key e = ground arith

overridden-deleted :
    (key : String) (xs : List CmdArg) → overridden (new_cmd_arg_deleted key) xs key ≡ []
unfolding arg_strs new_cmd_arg_deleted
overridden-deleted key xs = rw eq_refl

command_line-drop_key :
    (key : String) (xs : List CmdArg)
    → flat_map (overridden (new_cmd_arg_deleted key) xs) (first_keys xs)
      ≡ command_line (drop_key key xs)
unfolding command_line
command_line-drop_key key xs = rw (first_keys-drop_key key xs) (
    flat_map-without key (overridden (new_cmd_arg_deleted key) xs) _ (first_keys xs)
      (overridden-deleted key xs)
      (λ j h.
        unfold new_cmd_arg_deleted in
        rw h (sym (ap (λ o. arg_strs (arg_at o)) (last_arg-drop_key key j xs h)))))

-- Overriding a key by a deleted argument gives the command line of the arguments and overrides
-- with that key left out.
pub args-deleted :
    (key : String) (c : CmdArgs)
    → args (append_override (new_cmd_arg_deleted key ∷ []) c) ≡ args (drop_keys key c)
unfolding new_cmd_arg_deleted
args-deleted key c =
    let xs = c.args ++ c.overrides in
    let d = new_cmd_arg_deleted key in
    args-append_override c d
    ∙ flat_map-append (overridden d xs) (first_keys xs) (new_key (has_key d.k xs) d.k)
    ∙ ap (λ rest. flat_map (overridden d xs) (first_keys xs) ++ rest)
        (new_key-nil (overridden d xs) (has_key key xs) key (overridden-deleted key xs))
    ∙ append-nil _
    ∙ command_line-drop_key key xs
    ∙ ap command_line (keep-append (λ (a : CmdArg). not (key == a.k)) c.args c.overrides)
    ∙ sym (args-command_line (drop_keys key c))
