-- ===== src/Go/Net/RoundTrip.antt =====
-- An address of four bytes is read back from its dotted form.
use Prim.Native.String.append as Append
use go_virtualbox.Prelude.{
  ℕ, zero, suc, ◌/◌, ◌%◌, ◌≤◌, ◌<◌, String, code, ◌≡◌, ◌≢◌, refl, ap, ◌∙◌, false, none, some, [],
  ◌∷◌, ltb, arith, append, Bool-cases, inl, inr,
}
use go_virtualbox.Go.Strconv.{digit_value, digit_char, digits, decimal}
use go_virtualbox.Go.Strconv.RoundTrip.{digit_table, parse_uint-decimal}
use go_virtualbox.Go.Strings.{Lacks, split, split-append, split-Lacks, append-one}
use go_virtualbox.Go.Net.V4.{
  octet, leading_zero, parse_four, to4, v4_in_v6, number_of, four_of_parts,
}
use go_virtualbox.Go.Net.Parse.{parse_ip, parse_by, widen}
use go_virtualbox.Go.Net.Show.{dotted, ip_string, string_of}

-- the code of a decimal digit's character, told by its value
digit_code-ne : (sep d : ℕ) → d < 16 → digit_value sep ≢ some d → code (digit_char d) ≢ sep
digit_code-ne sep d h apart e = let read = (digit_table d h).0 in apart (rw e at read)

module _ (sep : ℕ) (no_digit : digit_value sep ≡ none) where
  Lacks-digits_of : (fuel n : ℕ) (out : String) → Lacks sep out → Lacks sep (digits fuel 10 n out)
  unfolding digits
  Lacks-digits_of zero n out h = h
  Lacks-digits_of (suc fuel) n out h =
      let lt : n % 10 < 10 = grind arith in
      let here : Lacks sep (String.◌∷◌ (digit_char (n % 10)) out) =
        (digit_code-ne sep (n % 10) (omega arith) (λ e. cc (no_digit, e)), h) in
      elim (Bool-cases (ltb n 10)) [
        | inl small ↦ rw small here
        | inr large ↦ rw large (Lacks-digits_of fuel (n / 10) _ here)
      ]

  pub Lacks-decimal_of : (n : ℕ) → Lacks sep (decimal n)
  unfolding decimal
  Lacks-decimal_of n = Lacks-digits_of (suc n) n "" tt

-- the first digit of a number that is not zero is not 0
leading_zero-digits :
    (fuel n : ℕ) (out : String) → n < fuel → 0 < n → leading_zero (digits fuel 10 n out) ≡ false
unfolding digits digit_value
leading_zero-digits zero n out h pos = absurd (omega arith)
leading_zero-digits (suc fuel) n out h pos = elim (Bool-cases (ltb n 10)) [
  | inl small ↦ rw small (first_digit n out (ground arith) pos)
  | inr large ↦ rw large (
      leading_zero-digits fuel (n / 10) _ (let e : 10 ≤ n = ground arith in grind arith)
        (let e : 10 ≤ n = ground arith in grind arith))
]
  where
    first_digit :
        (n : ℕ) (out : String)
        → n < 10
        → 0 < n
        → leading_zero (String.◌∷◌ (digit_char (n % 10)) out) ≡ false
    first_digit n String.[] lt pos = refl
    first_digit n (String.◌∷◌ d out) lt pos =
        let whole : n % 10 ≡ n = grind arith in
        let apart : digit_value b'0' ≢ some n = λ e. let z : zero ≡ n = cc e in omega (arith, z) in
        let other = digit_code-ne b'0' n (omega arith) apart in rw whole (ground arith)

leading_zero-decimal : (n : ℕ) → leading_zero (decimal n) ≡ false
unfolding decimal digits
leading_zero-decimal zero = refl
leading_zero-decimal (suc n) =
    leading_zero-digits (suc (suc n)) (suc n) "" (omega arith) (omega arith)

octet-decimal : (n : ℕ) → n < 256 → octet (decimal n) ≡ some n
unfolding octet number_of
octet-decimal n h = rw (leading_zero-decimal n) (rw (parse_uint-decimal 8 n (omega arith)) refl)

split-dot :
    (n : ℕ) (t : String) → split b'.' (append (decimal n) (append "." t)) ≡ decimal n ∷ split b'.' t
unfolding digit_value
split-dot n t =
    rw (append-one "." t) (split-append b'.' (decimal n) t "." refl (Lacks-decimal_of b'.' refl n))

-- the bytes of an address
abbrev pub AreBytes : ℕ → ℕ → ℕ → ℕ → Type 0
AreBytes a b c d = (a < 256) × (b < 256) × (c < 256) × (d < 256)

parse_four-dotted :
    (a b c d : ℕ)
    → AreBytes a b c d
    → parse_four (dotted (a ∷ b ∷ c ∷ d ∷ [])) ≡ some (a ∷ b ∷ c ∷ d ∷ [])
unfolding parse_four dotted four_of_parts digit_value
parse_four-dotted a b c d (ha, hb, hc, hd) =
    rw (split-dot a _, split-dot b _, split-dot c _)
      (rw (split-Lacks b'.' (decimal d) (Lacks-decimal_of b'.' refl d))
        (rw (octet-decimal a ha, octet-decimal b hb, octet-decimal c hc, octet-decimal d hd) refl))

parse_by-dot :
    (s p t : String)
    → Lacks b'.' p
    → Lacks b':' p
    → parse_by s (append p (String.◌∷◌ "." t)) ≡ widen (parse_four s)
unfolding parse_by
parse_by-dot s String.[] t hd hc = rw Append.nil refl
parse_by-dot s (String.◌∷◌ c p) t (d, hd) (e, hc) =
    rw Append.cons (rw (parse_by-dot s p t hd hc) (ground arith))

-- ParseIP reads the dotted form of four bytes as the address of 16 bytes.
pub parse_ip-dotted :
    (a b c d : ℕ)
    → AreBytes a b c d
    → parse_ip (dotted (a ∷ b ∷ c ∷ d ∷ [])) ≡ some (v4_in_v6 (a ∷ b ∷ c ∷ d ∷ []))
unfolding parse_ip dotted digit_value
parse_ip-dotted a b c d bytes =
    let text = dotted (a ∷ b ∷ c ∷ d ∷ []) in
    let tail = dotted (b ∷ c ∷ d ∷ []) in
    let found =
      parse_by-dot text (decimal a) tail (Lacks-decimal_of b'.' refl a)
        (Lacks-decimal_of b':' refl a) in
    ap (λ t. parse_by text (append (decimal a) t)) (append-one "." tail)
    ∙ found
    ∙ ap widen (parse_four-dotted a b c d bytes)

pub ip_string-v4 :
    (a b c d : ℕ) → ip_string (some (a ∷ b ∷ c ∷ d ∷ [])) ≡ dotted (a ∷ b ∷ c ∷ d ∷ [])
unfolding ip_string string_of to4
ip_string-v4 a b c d = refl

pub to4-v4_in_v6 :
    (a b c d : ℕ) → to4 (some (v4_in_v6 (a ∷ b ∷ c ∷ d ∷ []))) ≡ some (a ∷ b ∷ c ∷ d ∷ [])
unfolding to4
to4-v4_in_v6 a b c d = refl
