-- ===== src/Machine/Registry/Listing/Shown.antt =====
-- machine.go: a line of `list vms` and the pattern for it.
use Prim.Native.String.append as Append
use go_virtualbox.Prelude.{
  ℕ, String, Char, code, Bool, true, false, some, [], ◌∷◌, ◌≡◌, refl, sym, ap, ◌∙◌, append, arith,
}
use go_virtualbox.Go.Regexp.{
  Regex, Captures, Continue, group, plus, text, all_of, dot, match_at, match_one, match_many,
  before, find_submatch, accept,
}
use go_virtualbox.Go.Regexp.Greedy.{Needs, match_many-last, match_text}
use go_virtualbox.Go.Strings.{Lacks, Lacks-append}
use go_virtualbox.Machine.Info.Lines.{before-cons}
use go_virtualbox.Machine.Info.{in_braces, re_vm_name_uuid}

-- all characters of the text are in the class
abbrev pub AllIn : (ℕ → Bool) → String → Type 0
AllIn p String.[] = Unit {0}
AllIn p (String.◌∷◌ c s) = (p (code c) ≡ true) × AllIn p s

-- A repetition takes the whole of a text in its class, up to a character that is not.
match_many-AllIn :
    (p : ℕ → Bool) (k : Continue) (xs ys : String) (q : Char) (caps out : Captures)
    → AllIn p xs
    → p (code q) ≡ false
    → k (String.◌∷◌ q ys) caps ≡ some out
    → match_many p (append xs (String.◌∷◌ q ys)) caps k ≡ some out
unfolding match_many
match_many-AllIn p k String.[] ys q caps out h n found = rw Append.nil (ground (arith, n, found))
match_many-AllIn p k (String.◌∷◌ x xs) ys q caps out (h, hs) n found =
    rw Append.cons (rw (match_many-AllIn p k xs ys q caps out hs n found) (rw h refl))

AllIn-Lacks : (p : ℕ → Bool) (sep : ℕ) (s : String) → p sep ≡ false → AllIn p s → Lacks sep s
AllIn-Lacks p sep String.[] n h = tt
AllIn-Lacks p sep (String.◌∷◌ c s) n (h, hs) =
    (λ e. let same : p (code c) ≡ p sep = ap p e in cc, AllIn-Lacks p sep s n hs)

abbrev uuid_part : Regex
uuid_part = all_of (group 2 (plus in_braces) ∷ text "}" ∷ [])

abbrev rest_part : Regex
rest_part = all_of (text "\" {" ∷ group 2 (plus in_braces) ∷ text "}" ∷ [])

uuid_read :
    (d : Char) (uuid : String) (caps : Captures)
    → AllIn in_braces (String.◌∷◌ d uuid)
    → match_at uuid_part (String.◌∷◌ d (append uuid "}")) caps accept
      ≡ some ((2, String.◌∷◌ d uuid) ∷ caps)
unfolding match_at match_one
uuid_read d uuid caps (h, hs) =
    let s = String.◌∷◌ d (append uuid "}") in
    rw h (
      match_many-AllIn in_braces _ uuid "" "}" caps ((2, String.◌∷◌ d uuid) ∷ caps) hs refl
        (ap (λ t. some ((2, t) ∷ caps)) (before-cons d uuid "}")))

abbrev after_name_as : String → Continue
after_name_as n t caps = match_at rest_part t ((1, n) ∷ caps) accept

abbrev after_name : String → Continue
after_name s t caps = match_at rest_part t ((1, before s t) ∷ caps) accept

after_name-Needs : (s : String) → Needs b'"' (after_name s)
unfolding match_at match_one
after_name-Needs s = record { at_end = λ caps. refl; elsewhere = λ c t caps h. ground arith }

-- what follows the name
abbrev behind_name : Char → String → String
behind_name d uuid = append " {" (String.◌∷◌ d (append uuid "}"))

-- "<name>" {<uuid>}, where neither is empty
abbrev pub vm_line : Char → String → Char → String → String
vm_line c name d uuid =
    String.◌∷◌ "\"" (String.◌∷◌ c (append name (String.◌∷◌ "\"" (behind_name d uuid))))

rest_read :
    (d : Char) (uuid : String) (caps : Captures)
    → AllIn in_braces (String.◌∷◌ d uuid)
    → match_at rest_part (String.◌∷◌ "\"" (behind_name d uuid)) caps accept
      ≡ some ((2, String.◌∷◌ d uuid) ∷ caps)
unfolding match_at match_one
rest_read d uuid caps h =
    ap (λ t. match_at rest_part t caps accept)
      (sym (Append.cons "\"" " {" (String.◌∷◌ d (append uuid "}"))))
    ∙ match_text "\" {" (String.◌∷◌ d (append uuid "}")) caps (λ t c. match_at uuid_part t c accept)
    ∙ uuid_read d uuid caps h

behind_name-Lacks :
    (d : Char) (uuid : String)
    → AllIn in_braces (String.◌∷◌ d uuid)
    → Lacks b'"' (behind_name d uuid)
behind_name-Lacks d uuid h =
    let (hd, hu) = AllIn-Lacks in_braces b'"' (String.◌∷◌ d uuid) refl h in
    Lacks-append b'"' " {" (String.◌∷◌ d (append uuid "}")) (omega arith, (omega arith, tt))
      (hd, Lacks-append b'"' uuid "}" hu (omega arith, tt))

pub line_read :
    (c : Char) (name : String) (d : Char) (uuid : String)
    → Lacks 10 (String.◌∷◌ c name)
    → AllIn in_braces (String.◌∷◌ d uuid)
    → find_submatch re_vm_name_uuid (vm_line c name d uuid)
      ≡ some ((2, String.◌∷◌ d uuid) ∷ (1, String.◌∷◌ c name) ∷ [])
unfolding find_submatch match_at match_one
line_read c name d uuid (hc, hn) h =
    let ys = behind_name d uuid in
    let s = String.◌∷◌ c (append name (String.◌∷◌ "\"" ys)) in
    let found =
      ap (λ n. after_name_as n (String.◌∷◌ "\"" ys) []) (before-cons c name (String.◌∷◌ "\"" ys))
      ∙ rest_read d uuid ((1, String.◌∷◌ c name) ∷ []) h in
    let last =
      match_many-last b'"' (after_name s) (after_name-Needs s) name ys "\"" []
        ((2, String.◌∷◌ d uuid) ∷ (1, String.◌∷◌ c name) ∷ []) refl (omega arith) hn
        (behind_name-Lacks d uuid h) found in
    let in_line : dot (code c) ≡ true = ground arith in rw (in_line, last) refl

-- a machine as `list vms` shows it
pub record Vm : Type 0 where
  pub initial : Char
  pub others : String
  pub digit : Char
  pub digits : String

abbrev pub name_of : Vm → String
name_of vm = String.◌∷◌ vm.initial vm.others

abbrev pub line_of : Vm → String
line_of vm = vm_line vm.initial vm.others vm.digit vm.digits

abbrev pub IsVm : Vm → Type 0
IsVm vm = Lacks 10 (name_of vm) × AllIn in_braces (String.◌∷◌ vm.digit vm.digits)
