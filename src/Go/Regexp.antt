-- ===== src/Go/Regexp.antt =====
-- Of package regexp: leftmost-first matching, as `FindStringSubmatch` and `MatchString` do it.
pub mod Greedy
use go_virtualbox.Prelude.{
  ℕ, zero, suc, ◌-◌, String, code, Bool, true, false, not, Option, none, some, List, [], ◌∷◌,
  nat_eq, if◌then◌else◌, ◌≡◌, refl,
}

-- Patterns. `many` is a greedy repetition of a class of characters; `end_text` is `$`, and
-- `end_line` is `$` under the flag `m`.
pub data Regex : Type 0 where
  one : (ℕ → Bool) → Regex
  many : (ℕ → Bool) → Regex
  seq : Regex → Regex → Regex
  alt : Regex → Regex → Regex
  group : ℕ → Regex → Regex
  empty end_text end_line : Regex

-- the groups with the text they took, the last one first
abbrev pub Captures : Type 0
Captures = List (ℕ × String)

-- [^c]
abbrev pub other_than : ℕ → ℕ → Bool
other_than sep c = not (nat_eq c sep)

-- `.` is any character but a newline
abbrev pub dot : ℕ → Bool
dot = other_than 10

abbrev pub chr : ℕ → Regex
chr n = one (nat_eq n)

abbrev pub text : String → Regex
text String.[] = empty
text (String.◌∷◌ c s) = seq (chr (code c)) (text s)

abbrev pub all_of : List Regex → Regex
all_of [] = empty
all_of (r ∷ rs) = seq r (all_of rs)

-- x+
abbrev pub plus : (ℕ → Bool) → Regex
plus p = seq (one p) (many p)

abbrev pub or_else : {A : Type 0} → Option A → Option A → Option A
or_else none o = o
or_else (some a) o = some a

size : String → ℕ
size String.[] = zero
size (String.◌∷◌ c s) = suc (size s)

first : ℕ → String → String
first zero s = String.[]
first (suc n) String.[] = String.[]
first (suc n) (String.◌∷◌ c s) = String.◌∷◌ c (first n s)

-- the part of a text before its end `rest`
unfoldable pub before : String → String → String
unfolding size first
before s rest = first (size s - size rest) s

abbrev pub Continue : Type 0
Continue = String → Captures → Option Captures

unfoldable pub match_one : (ℕ → Bool) → String → Captures → Continue → Option Captures
match_one p String.[] caps k = none
match_one p (String.◌∷◌ c s) caps k = if p (code c) then k s caps else none

-- the longest repetition first
unfoldable pub match_many : (ℕ → Bool) → String → Captures → Continue → Option Captures
match_many p String.[] caps k = k String.[] caps
match_many p (String.◌∷◌ c s) caps k =
    let rest = match_many p s caps k in
    if p (code c) then or_else rest (k (String.◌∷◌ c s) caps) else k (String.◌∷◌ c s) caps

unfoldable pub match_end : String → Captures → Continue → Option Captures
match_end String.[] caps k = k String.[] caps
match_end (String.◌∷◌ c s) caps k = none

unfoldable pub match_eol : String → Captures → Continue → Option Captures
match_eol String.[] caps k = k String.[] caps
match_eol (String.◌∷◌ c s) caps k = if nat_eq (code c) 10 then k (String.◌∷◌ c s) caps else none

unfoldable pub match_at : Regex → String → Captures → Continue → Option Captures
unfolding match_one match_many before match_end match_eol
match_at (one p) s caps k = match_one p s caps k
match_at (many p) s caps k = match_many p s caps k
match_at (seq r q) s caps k = match_at r s caps (λ t caps'. match_at q t caps' k)
match_at (alt r q) s caps k = or_else (match_at r s caps k) (match_at q s caps k)
match_at (group n r) s caps k = match_at r s caps (λ t caps'. k t ((n, before s t) ∷ caps'))
match_at empty s caps k = k s caps
match_at end_text s caps k = match_end s caps k
match_at end_line s caps k = match_eol s caps k

abbrev pub accept : Continue
accept s caps = some caps

-- the leftmost place where the pattern matches
unfoldable pub find_submatch : Regex → String → Option Captures
unfolding match_at
find_submatch r String.[] = match_at r String.[] [] accept
find_submatch r (String.◌∷◌ c s) =
    let later = find_submatch r s in or_else (match_at r (String.◌∷◌ c s) [] accept) later

-- a pattern that starts with `^` matches at the start of the text only
unfoldable pub find_at_start : Regex → String → Option Captures
unfolding match_at
find_at_start r s = match_at r s [] accept

-- A pattern that starts with `^` under the flag `m` matches at the start of a line; `start` says
-- whether the text is one.
unfoldable pub find_in_lines : Regex → Bool → String → Option Captures
unfolding match_at
find_in_lines r start String.[] = if start then match_at r String.[] [] accept else none
find_in_lines r start (String.◌∷◌ c s) =
    let later = find_in_lines r (nat_eq (code c) 10) s in
    if start then or_else (match_at r (String.◌∷◌ c s) [] accept) later else later

is_match_of : Option Captures → Bool
is_match_of none = false
is_match_of (some caps) = true

unfoldable pub is_match : Regex → String → Bool
unfolding find_submatch is_match_of
is_match r s = is_match_of (find_submatch r s)

-- res[n]; a group that took no part is the empty text
unfoldable pub capture : ℕ → Captures → String
capture n [] = ""
capture n ((m, s) ∷ caps) = let rest = capture n caps in if nat_eq n m then s else rest

-- the greedy repetition goes to the last place that fits
last_equals :
    find_submatch (all_of (group 1 (plus dot) ∷ chr b'=' ∷ group 2 (many dot) ∷ [])) "a=b=c"
    ≡ some ((2, "c") ∷ (1, "a=b") ∷ [])
unfolding find_submatch match_at match_one match_many before size first
last_equals = refl
