-- ===== src/Go/Regexp/Greedy.antt =====
-- A greedy repetition followed by a character ends before the last place of that character.
use Prim.Native.String.append as Append
use go_virtualbox.Prelude.{
  ℕ, ◌+◌, ◌-◌, String, Char, code, none, some, ◌≡◌, ◌≢◌, refl, ap, sym, ◌∙◌, append, arith,
}
use go_virtualbox.Go.Regexp.{
  Captures, Continue, dot, other_than, size, first, before, match_many, match_at, match_one, text,
}
use go_virtualbox.Go.Strings.{Lacks}

-- What follows fails on a text that does not start with the character.
pub record Needs (sep : ℕ) (k : Continue) : Type 0 where
  pub at_end : (caps : Captures) → k String.[] caps ≡ none
  pub elsewhere :
      (c : Char) (s : String) (caps : Captures) → code c ≢ sep → k (String.◌∷◌ c s) caps ≡ none

module _ (sep : ℕ) (k : Continue) (needs : Needs sep k) where
  match_many-none : (ys : String) (caps : Captures) → Lacks sep ys → match_many dot ys caps k ≡ none
  unfolding match_many
  match_many-none String.[] caps h = needs.at_end caps
  match_many-none (String.◌∷◌ c ys) caps (h, hs) =
      rw (match_many-none ys caps hs, needs.elsewhere c ys caps h) (ground arith)

  pub match_many-last :
      (xs ys : String) (q : Char) (caps caps' : Captures)
      → code q ≡ sep
      → code q ≢ 10
      → Lacks 10 xs
      → Lacks sep ys
      → k (String.◌∷◌ q ys) caps ≡ some caps'
      → match_many dot (append xs (String.◌∷◌ q ys)) caps k ≡ some caps'
  unfolding match_many
  match_many-last String.[] ys q caps caps' e n hx hy found =
      rw Append.nil (rw (match_many-none ys caps hy, found) (ground arith))
  match_many-last (String.◌∷◌ x xs) ys q caps caps' e n (h, hx) hy found =
      rw Append.cons (rw (match_many-last xs ys q caps caps' e n hx hy found) (ground arith))

pub match_many-all :
    (sep : ℕ) (k : Continue) (xs : String) (caps caps' : Captures)
    → Lacks sep xs
    → k String.[] caps ≡ some caps'
    → match_many (other_than sep) xs caps k ≡ some caps'
unfolding match_many
match_many-all sep k String.[] caps caps' h found = found
match_many-all sep k (String.◌∷◌ x xs) caps caps' (h, hs) found =
    rw (match_many-all sep k xs caps caps' hs found) (ground arith)

-- The repetition ends at the character that it excludes.
pub match_many-stops :
    (k : Continue) (xs ys : String) (q : Char) (caps caps' : Captures)
    → Lacks (code q) xs
    → k (String.◌∷◌ q ys) caps ≡ some caps'
    → match_many (other_than (code q)) (append xs (String.◌∷◌ q ys)) caps k ≡ some caps'
unfolding match_many
match_many-stops k String.[] ys q caps caps' h found = rw Append.nil (ground (arith, found))
match_many-stops k (String.◌∷◌ x xs) ys q caps caps' (h, hs) found =
    rw Append.cons (rw (match_many-stops k xs ys q caps caps' hs found) (ground arith))

size-append : (xs ys : String) → size (append xs ys) ≡ size xs + size ys
unfolding size
size-append String.[] ys = rw Append.nil (omega arith)
size-append (String.◌∷◌ x xs) ys = rw Append.cons (let rest = size-append xs ys in omega arith)

first-size : (xs ys : String) → first (size xs) (append xs ys) ≡ xs
unfolding first size
first-size String.[] ys = refl
first-size (String.◌∷◌ x xs) ys = rw Append.cons (ap (String.◌∷◌ x) (first-size xs ys))

pub before-append : (xs ys : String) → before (append xs ys) ys ≡ xs
unfolding before
before-append xs ys =
    let count : size (append xs ys) - size ys ≡ size xs =
      let sum = size-append xs ys in omega arith in
    rw count (first-size xs ys)

append-empty : (s : String) → append s String.[] ≡ s
append-empty String.[] = Append.nil String.[]
append-empty (String.◌∷◌ c s) = rw Append.cons (ap (String.◌∷◌ c) (append-empty s))

pub before-nil : (s : String) → before s String.[] ≡ s
before-nil s = ap (λ t. before t String.[]) (sym (append-empty s)) ∙ before-append s String.[]

-- A literal text matches itself.
pub match_text :
    (p s : String) (caps : Captures) (k : Continue)
    → match_at (text p) (append p s) caps k ≡ k s caps
unfolding match_at match_one
match_text String.[] s caps k = rw Append.nil refl
match_text (String.◌∷◌ c p) s caps k = rw (Append.cons, match_text p s caps k) (ground arith)
