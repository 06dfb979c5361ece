-- ===== src/Machine/Info.antt =====
-- machine.go: what `showvminfo` and `list` print, read into machines; vbmgt.go: the patterns.
pub mod Lines
pub mod Printed
pub mod Described
use go_virtualbox.Prelude.{
  ℕ, String, Bool, ◌||◌, ◌&&◌, Option, none, some, List, [], ◌∷◌, ◌==◌, if◌then◌else◌, lookup,
  insert, leb, nat_eq,
}
use go_virtualbox.Go.Outcome.{Outcome, ok, err, ◌>>=◌, Error, bad_number, machine_not_exist}
use go_virtualbox.Go.Files.{Stat}
use go_virtualbox.Go.Regexp.{
  Regex, many, alt, group, chr, text, all_of, plus, dot, find_submatch, is_match, capture, Captures,
}
use go_virtualbox.Go.Scanner.{scan_lines}
use go_virtualbox.Go.Strconv.{NumError, parse_uint}
use go_virtualbox.Storage.Media.{or_empty}
use go_virtualbox.Storage.Controllers.{new_storage_controllers_from_props}
use go_virtualbox.Uart.FromInfo.{PropMap, new_uarts}
use go_virtualbox.Machine.Kinds.{Machine, new_machine}
use go_virtualbox.Machine.Nic.{nics_of}

abbrev pub in_braces : ℕ → Bool
in_braces c = (leb b'0' c && leb c b'9') || ((leb b'a' c && leb c b'f') || nat_eq c b'-')

abbrev pub re_vm_name_uuid : Regex
re_vm_name_uuid =
    all_of (text "\"" ∷ group 1 (plus dot) ∷ text "\" {" ∷ group 2 (plus in_braces) ∷ text "}" ∷ [])

abbrev pub re_vm_info_line : Regex
re_vm_info_line = all_of (
    alt (all_of (chr b'"' ∷ group 1 (plus dot) ∷ chr b'"' ∷ [])) (group 2 (plus dot))
    ∷ chr b'='
    ∷ alt (all_of (chr b'"' ∷ group 3 (many dot) ∷ chr b'"' ∷ [])) (group 4 (many dot))
    ∷ [])

abbrev pub re_machine_not_found : Regex
re_machine_not_found =
    all_of (text "Could not find a registered machine named '" ∷ group 1 (plus dot) ∷ text "'" ∷ [])

abbrev pub re_machine_not_found_by_uuid : Regex
re_machine_not_found_by_uuid =
    all_of (text "Could not find a registered machine with UUID {" ∷ plus dot ∷ text "}" ∷ [])

-- the first of two groups that took some text
abbrev pub either_group : ℕ → ℕ → Captures → String
either_group i j caps = if capture i caps == "" then capture j caps else capture i caps

-- the body of the loop, for the groups of a line
unfoldable pub add_property : Option Captures → PropMap → PropMap
unfolding capture
add_property none props = props
add_property (some caps) props = insert (either_group 1 2 caps) (either_group 3 4 caps) props

unfoldable pub add_lines : List String → PropMap → PropMap
unfolding add_property find_submatch
add_lines [] props = props
add_lines (line ∷ lines) props =
    add_lines lines (add_property (find_submatch re_vm_info_line line) props)

-- if err := s.Err(); err != nil
unfoldable pub scanned_all : {A : Type 0} → Option Error → A → Outcome A
scanned_all none a = ok a
scanned_all (some e) a = err e

unfoldable pub vminfo_as_prop_map : String → Outcome PropMap
unfolding scan_lines add_lines scanned_all
vminfo_as_prop_map vm_info =
    let (lines, stopped) = scan_lines vm_info in scanned_all stopped (add_lines lines [])

unfoldable pub uint_of : String → ℕ × Option NumError → Outcome ℕ
uint_of s (n, none) = ok n
uint_of s (n, some e) = err (bad_number s)

-- strconv.ParseUint(propMap[key], 10, 32)
unfoldable pub uint_property : PropMap → String → Outcome ℕ
unfolding parse_uint uint_of
uint_property props key =
    uint_of (or_empty (lookup key props)) (parse_uint (or_empty (lookup key props)) 10 32)

-- The machine that the properties describe. `dir` is filepath.Dir.
unfoldable pub machine_of_props : Stat → (String → String) → PropMap → Outcome Machine
unfolding uint_property new_machine nics_of new_uarts new_storage_controllers_from_props
machine_of_props stat dir props = do
  memory ← uint_property props "memory"
  cpus ← uint_property props "cpus"
  vram ← uint_property props "vram"
  nics ← nics_of props
  uarts ← new_uarts stat props
  controllers ← new_storage_controllers_from_props props
  ok (record new_machine {
    name = or_empty (lookup "name" props);
    uuid = or_empty (lookup "UUID" props);
    state = or_empty (lookup "VMState" props);
    memory = memory;
    cpus = cpus;
    vram = vram;
    cfg_file = or_empty (lookup "CfgFile" props);
    base_folder = dir (or_empty (lookup "CfgFile" props));
    nics = nics;
    uarts = uarts;
    storage_controllers = controllers;
  })

-- what `GetMachine` makes of the reply of `showvminfo`
unfoldable pub machine_of_reply :
    Stat → (String → String) → String → String → Option Error → Outcome Machine
unfolding is_match vminfo_as_prop_map machine_of_props
machine_of_reply stat dir stdout stderr (some e) =
    if is_match re_machine_not_found stderr || is_match re_machine_not_found_by_uuid stderr
    then err machine_not_exist
    else err e
machine_of_reply stat dir stdout stderr none = do
  props ← vminfo_as_prop_map stdout
  machine_of_props stat dir props
