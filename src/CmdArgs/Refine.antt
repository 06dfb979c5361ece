-- ===== src/CmdArgs/Refine.antt =====
-- `Args` computes the specified command line.
use mathlib.Core.List.{flat_map}
use mathlib.Core.Path.{ap₂, fun_ext}
use go_virtualbox.Prelude.{
  String, elem, not, ◌&&◌, Option, none, some, List, [], ◌∷◌, ◌++◌, ◌≡◌, refl, arith, if◌then◌else◌,
  ◌==◌, eq_iff, eq_refl, keep, keep-keep, keep_congr, append-nil, append_assoc, Dict, lookup,
  insert, lookup-insert, sym, ◌∙◌, ap,
}
use go_virtualbox.CmdArgs.{CmdArg, CmdArgs, contains, collect, render, arg_strs, arg_at, args}
use go_virtualbox.CmdArgs.Spec.{has_key, Distinct, last_arg, first_keys, without, command_line}

-- the map after the loop
abbrev newest : Option CmdArg → Option CmdArg → Option CmdArg
newest (some a) old = some a
newest none old = old

lookup-collect :
    (j : String) (xs : List CmdArg) (m : Dict CmdArg) (order : List String)
    → lookup j (collect xs m order).0 ≡ newest (last_arg j xs) (lookup j m)
unfolding collect
lookup-collect j [] m order = refl
lookup-collect j (a ∷ xs) m order = ground (
  arith,
  lookup-collect j xs (insert a.k a m) (if contains a.k m then order else order ++ a.k ∷ []),
  lookup-insert a.k j a m,
)

-- the keys that the map does not hold yet
abbrev fresh : Dict CmdArg → List String → List String
fresh m = keep (λ j. not (contains j m))

fresh-insert :
    (a : CmdArg) (m : Dict CmdArg) (js : List String)
    → fresh (insert a.k a m) js ≡ fresh m (without a.k js)
fresh-insert a m js =
    keep_congr _ _ js (λ j. ground (arith, lookup-insert a.k j a m))
    ∙ sym (keep-keep (λ j. not (contains j m)) (λ j. not (a.k == j)) js)

collect_order :
    (xs : List CmdArg) (m : Dict CmdArg) (order : List String)
    → (collect xs m order).1 ≡ order ++ fresh m (first_keys xs)
unfolding collect
collect_order [] m order = sym (append-nil order)
collect_order (a ∷ xs) m order = ground (
  arith,
  collect_order xs (insert a.k a m) (if contains a.k m then order else order ++ a.k ∷ []),
  fresh-insert a m (first_keys xs),
  append_assoc order (a.k ∷ []) (fresh m (without a.k (first_keys xs))),
)

collect-append :
    (xs ys : List CmdArg) (m : Dict CmdArg) (order : List String)
    → collect (xs ++ ys) m order ≡ collect ys (collect xs m order).0 (collect xs m order).1
unfolding collect
collect-append [] ys m order = refl
collect-append (a ∷ xs) ys m order = collect-append xs ys _ _

render-flat_map :
    (m : Dict CmdArg) (order out : List String)
    → render m order out ≡ out ++ flat_map (λ key. arg_strs (arg_at (lookup key m))) order
unfolding render flat_map
render-flat_map m [] out = sym (append-nil out)
render-flat_map m (key ∷ order) out = simp (render-flat_map m order, append_assoc)

keep_all : (js : List String) → fresh [] js ≡ js
unfolding lookup
keep_all [] = refl
keep_all (j ∷ js) = ap (◌∷◌ j) (keep_all js)

newest-none : (o : Option CmdArg) → newest o none ≡ o
newest-none none = refl
newest-none (some a) = refl

collect-lookup : (j : String) (xs : List CmdArg) → lookup j (collect xs [] []).0 ≡ last_arg j xs
unfolding lookup
collect-lookup j xs = lookup-collect j xs [] [] ∙ newest-none (last_arg j xs)

-- `elem` of a list that leaves a key out
elem-without :
    (key j : String) (js : List String) → elem j (without key js) ≡ (not (key == j) && elem j js)
elem-without key j [] = ground arith
elem-without key j (x ∷ js) =
    ground (arith, eq_iff x j, eq_iff key j, eq_iff key x, elem-without key j js)

Distinct-without : (key : String) (js : List String) → Distinct js → Distinct (without key js)
Distinct-without key [] h = tt
Distinct-without key (x ∷ js) (h, hs) =
    ground (arith, elem-without key x js, Distinct-without key js hs)

first_keys-Distinct : (xs : List CmdArg) → Distinct (first_keys xs)
first_keys-Distinct [] = tt
first_keys-Distinct (a ∷ xs) = (
  ground (arith, elem-without a.k a.k (first_keys xs), eq_refl a.k),
  Distinct-without a.k _ (first_keys-Distinct xs),
)

elem-first_keys : (j : String) (xs : List CmdArg) → elem j (first_keys xs) ≡ has_key j xs
elem-first_keys j [] = refl
elem-first_keys j (a ∷ xs) =
    ground (arith, elem-without a.k j (first_keys xs), elem-first_keys j xs)

-- The keys that the loop of `Args` has collected are those of its arguments, each once, whatever
-- arguments there are.
pub collect_keys :
    (xs : List CmdArg)
    → Distinct (collect xs [] []).1 × ((j : String) → elem j (collect xs [] []).1 ≡ has_key j xs)
collect_keys xs =
    let e = collect_order xs [] [] ∙ keep_all (first_keys xs) in
    rw e (first_keys-Distinct xs, λ j. elem-first_keys j xs)

-- `Args` is the command line of the arguments with the overrides behind them: each key stands
-- once, where it occurs first, with the value, the parts and the deletion mark given last.
pub args-command_line : (c : CmdArgs) → args c ≡ command_line (c.args ++ c.overrides)
unfolding args command_line
args-command_line c =
    let xs = c.args ++ c.overrides in
    rw (← collect-append c.args c.overrides [] []) (
      rw render-flat_map (
        ap₂ flat_map (fun_ext (λ j. ap (λ o. arg_strs (arg_at o)) (collect-lookup j xs)))
          (collect_order xs [] [] ∙ keep_all (first_keys xs))))
