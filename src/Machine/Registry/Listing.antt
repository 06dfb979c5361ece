-- ===== src/Machine/Registry/Listing.antt =====
-- machine.go: `ListMachines` on the text that `list vms` prints.
pub mod Shown
use Prim.Native.String.append as Append
use go_virtualbox.Prelude.{
  ℕ, String, Char, code, Bool, true, false, none, some, List, [], ◌∷◌, ◌++◌, map, ◌≡◌, ◌≢◌, refl,
  sym, ap, ◌∙◌, append, arith, All, nat_eq, ◌⊎◌, inl, inr, append_assoc, append-nil, ◌&&◌, ◌||◌,
}
use mathlib.Core.Path.{subst}
use go_virtualbox.Go.Outcome.{Outcome, ok, err, panic, Panic, Error, machine_not_exist}
use go_virtualbox.Go.Regexp.{
  Regex, Captures, Continue, group, plus, many, chr, text, all_of, dot, match_at, match_one,
  match_many, before, find_submatch, accept, capture,
}
use go_virtualbox.Go.Regexp.Greedy.{Needs, match_many-last, before-append, match_text}
use go_virtualbox.Go.Strings.{Lacks, Lacks-append}
use go_virtualbox.Go.Scanner.{Scanned, scan_lines}
use go_virtualbox.Go.Scanner.RoundTrip.{unlines, are_lines, scan_lines-unlines}
use go_virtualbox.Vbcmd.{
  Reply, Exec, World, Host, proceed, ◌>>=◌, lift, pure, run_out, error_of, check,
}
use go_virtualbox.Vbcmd.Effects.{proceed_congr, invocation, ran}
use go_virtualbox.Machine.Kinds.{Machine}
use go_virtualbox.Machine.Lifecycle.{get_machine}
use go_virtualbox.Machine.Registry.{
  if_available, is_machine_not_exist, listed, list_loop, list_machines,
}
use go_virtualbox.Machine.Info.Lines.{before-cons}
use go_virtualbox.Machine.Info.{scanned_all, in_braces, re_vm_name_uuid}
use go_virtualbox.Machine.Registry.Listing.Shown.{Vm, IsVm, name_of, line_of, line_read}

-- The names are looked at one after the other, from a world on and with the machines found so far:
-- a machine that is read is put behind them, one that does not exist is left out, and any other
-- error or a panic ends the visits. The last two say how they end.
pub data Visits {S : Type 0} (host : Host)
    : List String → List Machine → World S → Outcome (List Machine) → World S → Type 0 where
  all_read : {ms : List Machine} {w : World S} → Visits host [] ms w (ok ms) w
  is_read :
      {name : String} {names : List String} {m : Machine} {ms : List Machine} {w v u : World S}
      {o : Outcome (List Machine)}
      → get_machine name host w ≡ (ok m, v)
      → Visits host names (ms ++ m ∷ []) v o u
      → Visits host (name ∷ names) ms w o u
  is_gone :
      {name : String} {names : List String} {ms : List Machine} {w v u : World S}
      {o : Outcome (List Machine)}
      → get_machine name host w ≡ (err machine_not_exist, v)
      → Visits host names ms v o u
      → Visits host (name ∷ names) ms w o u
  fails :
      {name : String} {names : List String} {e : Error} {ms : List Machine} {w v : World S}
      → get_machine name host w ≡ (err e, v)
      → e ≢ machine_not_exist
      → Visits host (name ∷ names) ms w (err e) v
  panics :
      {name : String} {p : Panic} {names : List String} {ms : List Machine} {w v : World S}
      → get_machine name host w ≡ (panic p, v)
      → Visits host (name ∷ names) ms w (panic p) v

proceed-pure :
    {S A : Type 0} (r : Outcome A × World S) (host : Host) → proceed r (λ a. pure a) host ≡ r
proceed-pure (ok a, w) host = refl
proceed-pure (err e, w) host = refl
proceed-pure (panic p, w) host = refl

not_exist_case : (e : Error) → (e ≡ machine_not_exist) ⊎ (is_machine_not_exist e ≡ false)
unfolding is_machine_not_exist
not_exist_case machine_not_exist = inl refl
not_exist_case e = inr refl

not_exist_apart : (e : Error) → is_machine_not_exist e ≡ false → e ≢ machine_not_exist
unfolding is_machine_not_exist
not_exist_apart e n same = absurd (cc (rw same at n))

abbrev Ends :
    {S : Type 0}
    → Host
    → List String
    → List Machine
    → World S
    → Outcome (List Machine) × World S
    → Type 0
Ends host names ms w r = Visits host names ms w r.0 r.1

-- one round of the loop
visit :
    {S : Type 0} (host : Host) (name : String) (names lines : List String) (ms : List Machine)
    (w : World S) (r : Outcome Machine × World S)
    → get_machine name host w ≡ r
    → ((found : List Machine) (v : World S)
        → Ends host names found v (list_loop lines found host v))
    → Ends host
        (name ∷ names)
        ms
        w
        (proceed (if_available (λ h u. r) host w) (λ found. list_loop lines (ms ++ found)) host)
unfolding is_machine_not_exist
visit host name names lines ms w (ok m, v) got later = is_read got (later (ms ++ m ∷ []) v)
visit host name names lines ms w (panic p, v) got later = panics got
visit host name names lines ms w (err e, v) got later = elim (not_exist_case e) [
  | inl gone ↦
      let yes : is_machine_not_exist e ≡ true = ap is_machine_not_exist gone in
      rw yes (rw (append-nil ms) (is_gone (got ∙ ap (λ x. (err x, v)) gone) (later ms v)))
  | inr other ↦ rw other (fails got (not_exist_apart e other))
]

listed-line_of :
    {S : Type 0} (vm : Vm) (host : Host) (w : World S)
    → IsVm vm
    → listed (find_submatch re_vm_name_uuid (line_of vm)) host w
      ≡ if_available (get_machine (name_of vm)) host w
unfolding listed capture
listed-line_of vm host w (named, hex) =
    ap (λ o. listed o host w) (line_read vm.initial vm.others vm.digit vm.digits named hex)

list_loop-Visits :
    {S : Type 0} (vms : List Vm) (ms : List Machine) (host : Host) (w : World S)
    → All IsVm vms
    → Ends host (map name_of vms) ms w (list_loop (map line_of vms) ms host w)
unfolding list_loop
list_loop-Visits [] ms host w h = all_read
list_loop-Visits (vm ∷ vms) ms host w (h, hs) =
    let lines = map line_of vms in
    subst
      (λ r.
        Ends host (map name_of (vm ∷ vms)) ms w
          (proceed r (λ found. list_loop lines (ms ++ found)) host))
      (sym (listed-line_of vm host w h))
      (visit host (name_of vm) (map name_of vms) lines ms w _ refl
        (λ found v. list_loop-Visits vms found host v hs))

abbrev pub list_reply : {S : Type 0} → Host → World S → Reply
list_reply host w = host.reply w.log (invocation host ("list" ∷ "vms" ∷ []))

-- When `list vms` succeeds and prints a line `"<name>" {<uuid>}` for each machine, each name not empty
-- and with no newline, each uuid of hexadecimal digits and `-`, ListMachines looks at the machines
-- with just these names, in their order. It gives those that GetMachine reads; one for which that is
-- ErrMachineNotExist is left out, and any other error or a panic is returned at once, with no look
-- at the machines behind it.
pub list_machines-unlines :
    {S : Type 0} (vms : List Vm) (host : Host) (w : World S)
    → All IsVm vms
    → are_lines (map line_of vms) ≡ true
    → (list_reply host w).failure ≡ none
    → (list_reply host w).stdout ≡ unlines (map line_of vms)
    → let (result, after) = list_machines host w in
      Visits host (map name_of vms) [] (ran host ("list" ∷ "vms" ∷ []) w) result after
unfolding list_machines run_out error_of scanned_all
list_machines-unlines {S} vms host w h fine works prints =
    let reply = list_reply host w in
    let v = ran host ("list" ∷ "vms" ∷ []) w in
    let scanned : Scanned → Exec S (List Machine) = λ sc host' v'.
      proceed (list_loop sc.0 [] host' v') (λ ms. lift (scanned_all sc.1 ms)) host' in
    let same : list_machines host w ≡ list_loop (map line_of vms) [] host v =
      ap
        (λ f.
          proceed (check (error_of f) reply.stdout host v) (λ out. scanned (scan_lines out)) host)
        works
      ∙ ap (λ out. scanned (scan_lines out) host v) prints
      ∙ ap (λ sc. scanned sc host v) (scan_lines-unlines (map line_of vms) fine)
      ∙ proceed-pure (list_loop (map line_of vms) [] host v) host in
    subst (Ends host (map name_of vms) [] v) (sym same) (list_loop-Visits vms [] host v h)
