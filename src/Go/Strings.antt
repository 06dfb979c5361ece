-- ===== src/Go/Strings.antt =====
-- Of package strings: `Split` at a one-byte separator, and what trims a text (Trim).
pub mod Trim
use Prim.Native.String.{◌++◌ as append}
use Prim.Native.String.append as Append
use text.Mathlib.TextLemmas.{cons-ne-nil}
use go_virtualbox.Prelude.{
  ℕ, String, Char, code, ◌≡◌, ◌≢◌, refl, List, [], ◌∷◌, arith, Bool-cases, inl, inr, nat_eq, Bool,
  true, not, ◌&&◌, eq-false, false, ◌==◌, if◌then◌else◌, Bool-cases, inl, inr,
}

-- the character goes in front of the first part
abbrev push_front : Char → List String → List String
push_front c [] = (String.◌∷◌ c String.[]) ∷ []
push_front c (p ∷ ps) = String.◌∷◌ c p ∷ ps

-- strings.Split(s, sep), for a separator of one byte
unfoldable pub split : ℕ → String → List String
split sep String.[] = String.[] ∷ []
split sep (String.◌∷◌ c s) =
    if nat_eq (code c) sep then String.[] ∷ split sep s else push_front c (split sep s)

-- The character does not occur in the text.
abbrev pub Lacks : ℕ → String → Type 0
Lacks sep String.[] = Unit {0}
Lacks sep (String.◌∷◌ c s) = (code c ≢ sep) × Lacks sep s

-- the character does not occur
unfoldable pub lacks : ℕ → String → Bool
lacks sep String.[] = true
lacks sep (String.◌∷◌ c s) = let rest = lacks sep s in not (nat_eq (code c) sep) && rest

pub Lacks-lacks : (sep : ℕ) (s : String) → lacks sep s ≡ true → Lacks sep s
unfolding lacks
Lacks-lacks sep String.[] h = tt
Lacks-lacks sep (String.◌∷◌ c s) h = (ground arith, Lacks-lacks sep s (ground arith))

pub split-Lacks : (sep : ℕ) (s : String) → Lacks sep s → split sep s ≡ s ∷ []
unfolding split
split-Lacks sep String.[] h = refl
split-Lacks sep (String.◌∷◌ c s) (h, hs) = ground (arith, split-Lacks sep s hs)

pub split-append :
    (sep : ℕ) (s t : String) (c : Char)
    → code c ≡ sep
    → Lacks sep s
    → split sep (append s (String.◌∷◌ c t)) ≡ s ∷ split sep t
unfolding split
split-append sep String.[] t c e h = rw Append.nil (ground arith)
split-append sep (String.◌∷◌ d s) t c e (h, hs) =
    rw Append.cons (ground (arith, split-append sep s t c e hs))

pub Lacks-append : (sep : ℕ) (s t : String) → Lacks sep s → Lacks sep t → Lacks sep (append s t)
Lacks-append sep String.[] t hs ht = rw Append.nil ht
Lacks-append sep (String.◌∷◌ c s) t (h, hs) ht = rw Append.cons (h, Lacks-append sep s t hs ht)

pub append-one : (c : Char) (s : String) → append (String.◌∷◌ c String.[]) s ≡ String.◌∷◌ c s
append-one c s = rw (Append.cons, Append.nil)

pub append-ne-nil : (s t : String) → (s == "") ≡ false → (append s t == "") ≡ false
append-ne-nil String.[] t h = cc
append-ne-nil (String.◌∷◌ c s) t h = rw Append.cons (eq-false _ _ (cons-ne-nil c (append s t)))

-- A split has a first part.
pub split-cons : (sep : ℕ) (s : String) → (p : String) × (ps : List String) × (split sep s ≡ p ∷ ps)
unfolding split
split-cons sep String.[] = ("", [], refl)
split-cons sep (String.◌∷◌ c s) = elim (Bool-cases (nat_eq (code c) sep)) [
  | inl here ↦ (String.[], split sep s, rw here)
  | inr other ↦ let (p, ps, e) = split-cons sep s in (String.◌∷◌ c p, ps, rw other (rw e))
]
