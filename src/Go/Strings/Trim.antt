-- ===== src/Go/Strings/Trim.antt =====
-- Of package strings: `TrimSpace`, `HasPrefix`, `TrimPrefix` and `ToLower`.
use Prim.Native.String.append as Append
use text.Mathlib.TextLemmas.{cons-ne-nil}
use go_virtualbox.Prelude.{
  ℕ, String, Char, code, ◌≡◌, refl, ◌∙◌, ap, Bool, true, false, ◌||◌, ◌&&◌, nat_eq, if◌then◌else◌,
  append, ◌==◌, eq-false, Bool-cases, inl, inr,
}
use go_virtualbox.Go.Scan.{is_blank}
use go_virtualbox.Go.Strings.{Lacks}

-- unicode.IsSpace
unfoldable pub is_space : ℕ → Bool
unfolding is_blank
is_space c = nat_eq c 10 || is_blank c

unfoldable pub trim_left : String → String
unfolding is_space
trim_left String.[] = String.[]
trim_left (String.◌∷◌ c s) =
    let rest = trim_left s in if is_space (code c) then rest else String.◌∷◌ c s

-- a space at the end of the trimmed text is dropped
unfoldable pub cons_trimmed : Char → String → String
unfolding is_space
cons_trimmed c String.[] = if is_space (code c) then String.[] else String.◌∷◌ c String.[]
cons_trimmed c (String.◌∷◌ d s) = String.◌∷◌ c (String.◌∷◌ d s)

unfoldable pub trim_right : String → String
unfolding cons_trimmed
trim_right String.[] = String.[]
trim_right (String.◌∷◌ c s) = cons_trimmed c (trim_right s)

-- strings.TrimSpace(s)
unfoldable pub trim_space : String → String
unfolding trim_left trim_right
trim_space s = trim_right (trim_left s)

-- strings.HasPrefix(s, prefix)
unfoldable pub has_prefix : String → String → Bool
has_prefix s String.[] = true
has_prefix String.[] (String.◌∷◌ c p) = false
has_prefix (String.◌∷◌ d s) (String.◌∷◌ c p) =
    let rest = has_prefix s p in nat_eq (code d) (code c) && rest

-- the text behind a prefix that it has
unfoldable pub drop_prefix : String → String → String
drop_prefix s String.[] = s
drop_prefix String.[] (String.◌∷◌ c p) = String.[]
drop_prefix (String.◌∷◌ d s) (String.◌∷◌ c p) = drop_prefix s p

-- strings.TrimPrefix(s, prefix)
unfoldable pub trim_prefix : String → String → String
unfolding has_prefix drop_prefix
trim_prefix s p = if has_prefix s p then drop_prefix s p else s

pub cons_trimmed-ne-nil :
    (c : Char) (s : String) → (s == "") ≡ false → cons_trimmed c s ≡ String.◌∷◌ c s
unfolding cons_trimmed
cons_trimmed-ne-nil c String.[] h = absurd (cc h)
cons_trimmed-ne-nil c (String.◌∷◌ d s) h = refl

pub append-right-ne-nil : (s t : String) → (t == "") ≡ false → (append s t == "") ≡ false
append-right-ne-nil String.[] t h = rw Append.nil h
append-right-ne-nil (String.◌∷◌ c s) t h = rw Append.cons (eq-false _ _ (cons-ne-nil c _))

-- A text whose end is not all white space is trimmed there.
pub trim_right-append :
    (s t : String)
    → (trim_right t == "") ≡ false
    → trim_right (append s t) ≡ append s (trim_right t)
unfolding trim_right
trim_right-append String.[] t h = rw (Append.nil, Append.nil) refl
trim_right-append (String.◌∷◌ c s) t h =
    rw (Append.cons, Append.cons, trim_right, trim_right-append s t h)
      (cons_trimmed-ne-nil c (append s (trim_right t)) (append-right-ne-nil s (trim_right t) h))

-- A newline at the end is trimmed.
pub trim_right-newline : (s : String) → trim_right (append s "\n") ≡ trim_right s
unfolding trim_right cons_trimmed is_space is_blank
trim_right-newline String.[] = ap trim_right (Append.nil "\n") ∙ refl
trim_right-newline (String.◌∷◌ c s) =
    rw (Append.cons, trim_right) (ap (cons_trimmed c) (trim_right-newline s))

-- A character that is no space is kept with what is in front of it.
pub trim_right-solid :
    (c : Char) (s : String)
    → is_space (code c) ≡ false
    → trim_right (String.◌∷◌ c s) ≡ String.◌∷◌ c (trim_right s)
unfolding trim_right cons_trimmed
trim_right-solid c s h = solid (trim_right s)
  where
    solid : (t : String) → cons_trimmed c t ≡ String.◌∷◌ c t
    solid String.[] = rw h refl
    solid (String.◌∷◌ d t) = refl

pub Lacks-trim_right : (sep : ℕ) (s : String) → Lacks sep s → Lacks sep (trim_right s)
unfolding trim_right cons_trimmed
Lacks-trim_right sep String.[] h = tt
Lacks-trim_right sep (String.◌∷◌ c s) (h, hs) = go (trim_right s) (Lacks-trim_right sep s hs)
  where
    go : (t : String) → Lacks sep t → Lacks sep (cons_trimmed c t)
    go String.[] l = elim (Bool-cases (is_space (code c))) [
      | inl space ↦ rw space tt
      | inr other ↦ rw other (h, tt)
    ]
    go (String.◌∷◌ d t) l = (h, l)

trim_space-both : trim_space "\t Value: a b \r\n" ≡ "Value: a b"
unfolding trim_space is_space cons_trimmed trim_right trim_left is_blank
trim_space-both = refl

trim_prefix-value : trim_prefix "Value: x" "Value: " ≡ "x"
unfolding trim_prefix has_prefix drop_prefix
trim_prefix-value = refl

-- the character under the one in the first text
table_char : String → String → Char → Char
table_char (String.◌∷◌ u us) (String.◌∷◌ l ls) c =
    let later = table_char us ls c in if nat_eq (code c) (code u) then l else later
table_char upper lower c = c

-- The letters that have a lower-case form in ASCII: those of ASCII, the Kelvin sign and the I with a
-- dot. The other letters, whose lower-case form is not in ASCII, are left as they are.
unfoldable pub lower_char : Char → Char
unfolding table_char
lower_char = table_char "ABCDEFGHIJKLMNOPQRSTUVWXYZKİ" "abcdefghijklmnopqrstuvwxyzki"

-- strings.ToLower(s), up to such letters
unfoldable pub to_lower : String → String
unfolding lower_char
to_lower String.[] = String.[]
to_lower (String.◌∷◌ c s) = String.◌∷◌ (lower_char c) (to_lower s)

to_lower-key : to_lower "Dhcpd IP" ≡ "dhcpd ip"
unfolding to_lower table_char lower_char
to_lower-key = refl
