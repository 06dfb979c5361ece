-- ===== src/Vbhostd/Allowed.antt =====
-- cmd/vbhostd: what the guests can have opened.
use Prim.Native.String.append as Append
use go_virtualbox.Prelude.{
  String, Bool, true, false, ◌&&◌, ◌||◌, Option, none, some, List, [], ◌∷◌, ◌++◌, map, ◌≡◌, refl,
  sym, ap, ◌∙◌, append, arith, ◌==◌, if◌then◌else◌, Bool-cases, inl, inr, keep, Option-cases,
  append-nil, append_assoc,
}
use go_virtualbox.Go.Outcome.{ok}
use go_virtualbox.Go.Regexp.{
  Captures, Continue, match_at, match_one, text, find_at_start, accept, or_else, chr, all_of,
  before,
}
use go_virtualbox.Go.Strings.{split}
use go_virtualbox.Go.Strings.Trim.{has_prefix, drop_prefix}
use go_virtualbox.Vbcmd.{Host, World, Invocation}
use go_virtualbox.Guest.{GuestProperty}
use go_virtualbox.Vbhostd.{
  Line, opening, unsupported, failed, Loop, open_regexp, is_match_at_start, open_command, run_open,
  open_value, event_loop,
}

-- A literal text matches where it is a prefix.
match_text-prefix :
    (p s : String) (caps : Captures) (k : Continue)
    → match_at (text p) s caps k ≡ (if has_prefix s p then k (drop_prefix s p) caps else none)
unfolding match_at match_one has_prefix drop_prefix
match_text-prefix String.[] s caps k = refl
match_text-prefix (String.◌∷◌ c p) String.[] caps k = refl
match_text-prefix (String.◌∷◌ c p) (String.◌∷◌ d s) caps k =
    rw (match_text-prefix p s caps k) (ground arith)

has_prefix-append :
    (s p q : String)
    → has_prefix s (append p q) ≡ (has_prefix s p && has_prefix (drop_prefix s p) q)
unfolding has_prefix drop_prefix
has_prefix-append s String.[] q = rw Append.nil refl
has_prefix-append String.[] (String.◌∷◌ c p) q = rw Append.cons refl
has_prefix-append (String.◌∷◌ d s) (String.◌∷◌ c p) q =
    rw Append.cons (rw (has_prefix-append s p q) (ground arith))

-- a text with a scheme that may be opened
unfoldable pub is_allowed : String → Bool
is_allowed value =
    has_prefix value "http:" || (has_prefix value "https:" || has_prefix value "mailto:")

-- what follows the scheme
abbrev colon_part : (String → Captures → Captures) → Continue
unfolding match_at match_one
colon_part f t caps = match_at (all_of (chr b':' ∷ [])) t (f t caps) accept

-- one of the three branches
branch :
    (p s : String) (caps : Captures) (f : String → Captures → Captures)
    → is_match_at_start (match_at (text p) s caps (colon_part f)) ≡ has_prefix s (append p ":")
unfolding is_match_at_start has_prefix match_at match_one colon_part
branch p s caps f =
    rw (match_text-prefix p s caps (colon_part f), has_prefix-append s p ":")
      (go (has_prefix s p) (drop_prefix s p))
  where
    go :
        (b : Bool) (t : String)
        → is_match_at_start (if b then colon_part f t caps else none) ≡ (b && has_prefix t ":")
    go false t = refl
    go true String.[] = refl
    go true (String.◌∷◌ c t) = ground arith

is_match-or_else :
    (a b : Option Captures)
    → is_match_at_start (or_else a b) ≡ (is_match_at_start a || is_match_at_start b)
unfolding is_match_at_start
is_match-or_else none b = refl
is_match-or_else (some caps) b = refl

open_regexp-is_allowed :
    (value : String) → is_match_at_start (find_at_start open_regexp value) ≡ is_allowed value
unfolding find_at_start match_at is_allowed colon_part
open_regexp-is_allowed value =
    let f : String → Captures → Captures = λ t caps. (1, before value t) ∷ caps in
    rw (is_match-or_else, is_match-or_else)
      (rw (branch "http" value [] f, branch "https" value [] f, branch "mailto" value [] f) refl)

-- what the loop is asked to open, up to the property that ends it
unfoldable pub requests : List GuestProperty → List String
requests [] = []
requests (prop ∷ props) =
    let later = requests props in
    if prop.name == "vbhostd/open"
    then prop.value ∷ later
    else if prop.name == "vbhostd/error"
    then []
    else if prop.name == ""
    then []
    else later

-- the program that opens an address
abbrev pub opener : String → String → Invocation
opener os value = open_command os (split 32 value)

abbrev printed : Line → World (List Line) → World (List Line)
printed line w = record w { this = w.this ++ line ∷ [] }

abbrev started : Invocation → World (List Line) → World (List Line)
started inv w = record w { log = w.log ++ inv ∷ [] }

-- The call ends well and runs these programs.
pub record Runs {A : Type 0} (call : Loop A) (a : A) (host : Host) (w : World (List Line))
    (programs : List Invocation) : Type 0 where
  pub after : World (List Line)
  pub result : call host w ≡ (ok a, after)
  pub logged : after.log ≡ w.log ++ programs

run_open-Runs :
    (args : List String) (host : Host) (w : World (List Line))
    → Runs (run_open args) tt host w (open_command host.os args ∷ [])
unfolding run_open
run_open-Runs args host w =
    let inv = open_command host.os args in
    elim (Option-cases (host.reply w.log inv).failure) [
      | inl works ↦ record { after = started inv w; result = rw works refl; logged = refl }
      | inr (f, fails) ↦ record {
        after = printed (failed f) (started inv w);
        result = rw fails refl;
        logged = refl;
      }
    ]

pub open_value-Runs :
    (value : String) (host : Host) (w : World (List Line))
    → Runs (open_value value) tt host w (if is_allowed value then opener host.os value ∷ [] else [])
unfolding open_value
open_value-Runs value host w = elim (Bool-cases (is_allowed value)) [
  | inl allowed ↦
      let runs = run_open-Runs (split 32 value) host (printed (opening value) w) in
      record {
        after = runs.after;
        result = rw (open_regexp-is_allowed value) (rw allowed runs.result);
        logged = rw allowed runs.logged;
      }
  | inr refused ↦ record {
    after = printed (unsupported value) (printed (opening value) w);
    result = rw (open_regexp-is_allowed value) (rw refused refl);
    logged = rw refused (sym (append-nil w.log));
  }
]

one_first :
    (b : Bool) (log : List Invocation) (os value : String) (values : List String)
    → (log ++ (if b then opener os value ∷ [] else [])) ++ map (opener os) values
      ≡ log ++ map (opener os) (if b then value ∷ values else values)
one_first true log os value values = append_assoc log (opener os value ∷ []) _
one_first false log os value values = ap (λ l. l ++ map (opener os) values) (append-nil log)

-- The loop starts a program for each value of `vbhostd/open` that begins with `http:`, `https:` or
-- `mailto:`, in their order and up to the property that ends the loop, and for nothing else: what
-- is not allowed starts no program.
pub event_loop-keep :
    (props : List GuestProperty) (host : Host) (w : World (List Line))
    → (event_loop props host w).1.log
      ≡ w.log ++ map (opener host.os) (keep is_allowed (requests props))
unfolding event_loop requests
event_loop-keep [] host w = sym (append-nil w.log)
event_loop-keep (prop ∷ props) host w = elim (Bool-cases (prop.name == "vbhostd/open")) [
  | inl name ↦
      let runs = open_value-Runs prop.value host w in
      let values = keep is_allowed (requests props) in
      rw (name, runs.result)
        (event_loop-keep props host runs.after
          ∙ ap (λ log. log ++ map (opener host.os) values) runs.logged
          ∙ one_first (is_allowed prop.value) w.log host.os prop.value values)
  | inr other ↦ rw other (elim (Bool-cases (prop.name == "vbhostd/error")) [
    | inl error ↦ rw error (sym (append-nil w.log))
    | inr fine ↦ rw fine (elim (Bool-cases (prop.name == "")) [
      | inl empty ↦ rw empty (sym (append-nil w.log))
      | inr more ↦ rw more (event_loop-keep props host w)
    ])
  ])
]
