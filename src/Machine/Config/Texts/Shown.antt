-- ===== src/Machine/Config/Texts/Shown.antt =====
-- machine.go: the extra data that VBoxManage prints is read back.
use Prim.Native.String.append as Append
use go_virtualbox.Prelude.{
  String, true, false, Option, none, some, List, [], ◌∷◌, ◌≡◌, refl, ap, append, ◌==◌, arith,
}
use go_virtualbox.Go.Outcome.{ok}
use go_virtualbox.Go.Strings.Trim.{has_prefix, drop_prefix, trim_prefix, trim_right, trim_space}
use go_virtualbox.Vbcmd.{Host, World, manage, run_out, run_out_with, error_of}
use go_virtualbox.Vbcmd.Effects.{invocation, ran}
use go_virtualbox.Guest.Shown.{value_line, value_shown, trim-value_shown}
use go_virtualbox.Machine.Kinds.{Machine}
use go_virtualbox.Machine.Config.Texts.{extra_of, get_extra_data}

has_prefix-append : (p s : String) → has_prefix (append p s) p ≡ true
unfolding has_prefix
has_prefix-append String.[] s = refl
has_prefix-append (String.◌∷◌ c p) s = rw Append.cons (rw (has_prefix-append p s) (ground arith))

drop_prefix-append : (p s : String) → drop_prefix (append p s) p ≡ s
unfolding drop_prefix
drop_prefix-append String.[] s = Append.nil s
drop_prefix-append (String.◌∷◌ c p) s = rw Append.cons (drop_prefix-append p s)

-- what `getextradata` prints
abbrev pub extra_shown : Option String → String
extra_shown none = "No value set!\n"
extra_shown (some value) = value_shown value

-- a value is not empty and has no white space at its end
abbrev pub IsExtra : Option String → Type 0
IsExtra none = Unit {0}
IsExtra (some value) = ((value == "") ≡ false) × (trim_right value ≡ value)

extra_of-shown :
    (extra : Option String) → IsExtra extra → extra_of (trim_space (extra_shown extra)) ≡ extra
unfolding extra_of trim_prefix has_prefix trim_space trim_right
    go_virtualbox.Go.Strings.Trim.trim_left go_virtualbox.Go.Strings.Trim.is_space
    go_virtualbox.Go.Scan.is_blank go_virtualbox.Go.Strings.Trim.cons_trimmed
extra_of-shown none h = refl
extra_of-shown (some value) (not_empty, trimmed) =
    let other : has_prefix (value_line value) "No value set" ≡ false = rw Append.cons refl in
    rw (trim-value_shown value not_empty trimmed) (
      rw other
        (rw (has_prefix-append "Value: " value) (ap some (drop_prefix-append "Value: " value))))

abbrev extra_words : Machine → String → List String
extra_words m key = "getextradata" ∷ m.name ∷ key ∷ []

-- When its command succeeds, GetExtraData reads back a value that is printed behind `Value: `, not
-- empty and with no white space at its end, and returns nil when VBoxManage says that there is none.
-- It runs one command.
pub get_extra_data-shown :
    (key : String) (extra : Option String) (host : Host) (w : World Machine)
    → IsExtra extra
    → (host.reply w.log (invocation host (extra_words w.this key))).failure ≡ none
    → (host.reply w.log (invocation host (extra_words w.this key))).stdout ≡ extra_shown extra
    → get_extra_data key host w ≡ (ok extra, ran host (extra_words w.this key) w)
unfolding get_extra_data run_out manage run_out_with error_of
get_extra_data-shown key extra host w h works prints =
    rw (works, prints) (rw (extra_of-shown extra h) refl)
