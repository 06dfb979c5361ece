-- ===== src/Networks/Lines/Shown.antt =====
-- The lines `<key>: <value>`, with any number of blanks in front of the value, are read back.
use Prim.Native.String.append as Append
use go_virtualbox.Prelude.{
  ℕ, zero, suc, String, Char, code, false, some, [], ◌∷◌, ◌≡◌, ◌≢◌, refl, sym, ◌∙◌, ap, append,
  arith, nat_eq,
}
use go_virtualbox.Go.Regexp.{
  Regex, Captures, Continue, many, group, plus, chr, dot, all_of, match_many, match_at, match_one,
  before, find_submatch, accept, capture,
}
use go_virtualbox.Go.Regexp.Greedy.{
  Needs, match_many-last, match_many-all, before-append, before-nil,
}
use go_virtualbox.Go.Strings.{Lacks}
use go_virtualbox.Networks.Lines.{blank, entry_of, colon_entry}

-- so many blanks in front of a text
abbrev pub blanks : ℕ → String → String
blanks zero s = s
blanks (suc n) s = String.◌∷◌ " " (blanks n s)

-- the text does not start with white space
abbrev pub Unpadded : String → Type 0
Unpadded String.[] = Unit {0}
Unpadded (String.◌∷◌ c s) = blank (code c) ≡ false

abbrev value_part : Regex
value_part = all_of (plus blank ∷ group 2 (many dot) ∷ [])

abbrev dot_part : Regex
dot_part = all_of (group 2 (many dot) ∷ [])

value_taken :
    (value : String) (caps : Captures)
    → Lacks 10 value
    → match_at dot_part value caps accept ≡ some ((2, value) ∷ caps)
unfolding match_at
value_taken value caps h =
    match_many-all 10 _ value caps ((2, value) ∷ caps) h (rw (before-nil value) refl)

value_read :
    (pad : ℕ) (value : String) (caps : Captures)
    → Unpadded value
    → Lacks 10 value
    → match_many blank (blanks pad value) caps (λ t c. match_at dot_part t c accept)
      ≡ some ((2, value) ∷ caps)
unfolding match_many
value_read zero String.[] caps u h = value_taken "" caps h
value_read zero (String.◌∷◌ c value) caps u h = rw u (value_taken (String.◌∷◌ c value) caps h)
value_read (suc pad) value caps u h = rw (value_read pad value caps u h) refl

Lacks-blanks :
    (sep pad : ℕ) (value : String) → sep ≢ 32 → Lacks sep value → Lacks sep (blanks pad value)
Lacks-blanks sep zero value n h = h
Lacks-blanks sep (suc pad) value n h = (omega (arith, n), Lacks-blanks sep pad value n h)

abbrev after_key : String → Continue
after_key line t caps =
    match_at (all_of (chr b':' ∷ plus blank ∷ group 2 (many dot) ∷ [])) t
      ((1, before line t) ∷ caps) accept

after_key-Needs : (line : String) → Needs b':' (after_key line)
unfolding match_at match_one
after_key-Needs line = record { at_end = λ caps. refl; elsewhere = λ c t caps h. ground arith }

-- the line that tells a value
abbrev pub field_line : String → ℕ → String → String
field_line key pad value = append key (String.◌∷◌ ":" (blanks (suc pad) value))

-- The value is behind the last colon: it has none itself.
pub record IsValue (value : String) : Type 0 where
  pub one_line : Lacks 10 value
  pub no_colon : Lacks b':' value
  pub unpadded : Unpadded value

pub colon_entry-field_line :
    (c : Char) (key : String) (pad : ℕ) (value : String)
    → Lacks 10 (String.◌∷◌ c key)
    → IsValue value
    → colon_entry (field_line (String.◌∷◌ c key) pad value) ≡ some (String.◌∷◌ c key, value)
unfolding colon_entry find_submatch match_at match_one entry_of capture
colon_entry-field_line c key pad value (hc, hk) is_value =
    let tail = blanks (suc pad) value in
    let line = String.◌∷◌ c (append key (String.◌∷◌ ":" tail)) in
    let key_before : before line (String.◌∷◌ ":" tail) ≡ String.◌∷◌ c key =
      ap (λ s. before s (String.◌∷◌ ":" tail)) (sym (Append.cons c key _))
      ∙ before-append (String.◌∷◌ c key) (String.◌∷◌ ":" tail) in
    let ended : after_key line (String.◌∷◌ ":" tail) []
        ≡ some ((2, value) ∷ (1, String.◌∷◌ c key) ∷ []) =
      rw key_before
        (value_read pad value ((1, String.◌∷◌ c key) ∷ []) is_value.unpadded is_value.one_line) in
    let found =
      match_many-last b':' (after_key line) (after_key-Needs line) key tail ":" [] _ refl
        (omega arith) hk (Lacks-blanks b':' (suc pad) value (omega arith) is_value.no_colon)
        ended in
    let first : nat_eq (code c) 10 ≡ false = ground arith in
    rw Append.cons (rw found (rw first refl))
