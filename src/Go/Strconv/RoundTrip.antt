-- ===== src/Go/Strconv/RoundTrip.antt =====
-- `ParseUint` reads back what the verbs print.
use go_virtualbox.Prelude.{
  ℕ, zero, suc, ◌+◌, ◌-◌, ◌*◌, ◌/◌, ◌%◌, ◌^◌, ◌≤◌, ◌<◌, String, code, ◌≡◌, refl, none, some, ltb,
  arith, ◌==◌, eq-false, ◌∙◌, Bool-cases, inl, inr, false,
}
use Prim.Native.String.{count}
use text.Mathlib.TextLemmas.{cons-ne-nil}
use go_virtualbox.Go.Strings.{Lacks}
use go_virtualbox.Go.Strconv.{
  digit_value, scan_digits, parse_uint, digit_char, digits, decimal, zeros, hex4,
}

pub digit_table :
    (d : ℕ) → d < 16 → (digit_value (code (digit_char d)) ≡ some d) × (48 ≤ code (digit_char d))
unfolding digit_value digit_char
digit_table zero h = (refl, omega arith)
digit_table (suc zero) h = (refl, omega arith)
digit_table (suc (suc zero)) h = (refl, omega arith)
digit_table (suc (suc (suc zero))) h = (refl, omega arith)
digit_table (suc (suc (suc (suc zero)))) h = (refl, omega arith)
digit_table (suc (suc (suc (suc (suc zero))))) h = (refl, omega arith)
digit_table (suc (suc (suc (suc (suc (suc zero)))))) h = (refl, omega arith)
digit_table (suc (suc (suc (suc (suc (suc (suc zero))))))) h = (refl, omega arith)
digit_table (suc (suc (suc (suc (suc (suc (suc (suc zero)))))))) h = (refl, omega arith)
digit_table (suc (suc (suc (suc (suc (suc (suc (suc (suc zero))))))))) h = (refl, omega arith)
digit_table (suc (suc (suc (suc (suc (suc (suc (suc (suc (suc zero)))))))))) h = (refl, omega arith)
digit_table (suc (suc (suc (suc (suc (suc (suc (suc (suc (suc (suc zero))))))))))) h =
    (refl, omega arith)
digit_table (suc (suc (suc (suc (suc (suc (suc (suc (suc (suc (suc (suc zero)))))))))))) h =
    (refl, omega arith)
digit_table (suc (suc (suc (suc (suc (suc (suc (suc (suc (suc (suc (suc (suc zero))))))))))))) h =
    (refl, omega arith)
digit_table (suc (suc (suc (suc (suc (suc (suc (suc (suc (suc (suc (suc (suc (suc zero))))))))))))))
      h =
    (refl, omega arith)
digit_table
      (suc (suc (suc (suc (suc (suc (suc (suc (suc (suc (suc (suc (suc (suc (suc zero)))))))))))))))
      h =
    (refl, omega arith)
digit_table
      (suc
        (suc (suc (suc (suc (suc (suc (suc (suc (suc (suc (suc (suc (suc (suc (suc n))))))))))))))))
      h =
    absurd (omega arith)

-- reading the last digit of `n` behind the digits before it gives `n`
scan-digit :
    (base max n : ℕ) (s : String)
    → base ≤ 16
    → 2 ≤ base
    → n ≤ max
    → scan_digits base max (n / base) (String.◌∷◌ (digit_char (n % base)) s)
      ≡ scan_digits base max n s
unfolding scan_digits
scan-digit base max n s h2 hb hn =
    let lt : n % base < base = grind arith in
    let whole : n / base * base + n % base ≡ n = grind arith in
    rw ((digit_table (n % base) (omega arith)).0, scan_digits) (rw whole (ground arith))

scan_first :
    (base max n : ℕ) (s : String)
    → base ≤ 16
    → 2 ≤ base
    → n ≤ max
    → n < base
    → scan_digits base max 0 (String.◌∷◌ (digit_char (n % base)) s) ≡ scan_digits base max n s
scan_first base max n s h2 hb hn lt =
    let e : n / base ≡ 0 = grind arith in rw e at (scan-digit base max n s h2 hb hn)

quotient-le : (base max n : ℕ) → 2 ≤ base → n ≤ max → n / base ≤ max
quotient-le base max n hb hn = grind arith

div-lt : (base n fuel : ℕ) → 2 ≤ base → base ≤ n → n < suc fuel → n / base < fuel
div-lt base n fuel hb hn h = grind arith

scan-digits :
    (fuel base max n : ℕ) (out : String)
    → base ≤ 16
    → 2 ≤ base
    → n ≤ max
    → n < fuel
    → scan_digits base max 0 (digits fuel base n out) ≡ scan_digits base max n out
unfolding digits
scan-digits zero base max n out h2 hb hn lt = absurd (omega arith)
scan-digits (suc fuel) base max n out h2 hb hn lt = elim (Bool-cases (ltb n base)) [
  | inl small ↦ rw small (scan_first base max n out h2 hb hn (ground arith))
  | inr large ↦ rw large (
      scan-digits fuel base max (n / base) (String.◌∷◌ (digit_char (n % base)) out) h2 hb
        (quotient-le base max n hb hn) (div-lt base n fuel hb (ground arith) lt)
      ∙ scan-digit base max n out h2 hb hn)
]

digits-ne-nil : (fuel base n : ℕ) (out : String) → (digits (suc fuel) base n out == "") ≡ false
unfolding digits
digits-ne-nil zero base n out = elim (Bool-cases (ltb n base)) [
  | inl small ↦ rw small (eq-false _ _ (cons-ne-nil _ _))
  | inr large ↦ rw large (eq-false _ _ (cons-ne-nil _ _))
]
digits-ne-nil (suc fuel) base n out = elim (Bool-cases (ltb n base)) [
  | inl small ↦ rw small (eq-false _ _ (cons-ne-nil _ _))
  | inr large ↦ rw large (digits-ne-nil fuel base (n / base) _)
]

-- `%d` is read back by `ParseUint(_, 10, bits)` if the number has at most that many bits.
pub parse_uint-decimal :
    (bits n : ℕ) → n ≤ 2 ^ bits - 1 → parse_uint (decimal n) 10 bits ≡ (n, none)
unfolding parse_uint decimal
parse_uint-decimal bits n h =
    rw (digits-ne-nil n 10 n "")
      (scan-digits (suc n) 10 (2 ^ bits - 1) n "" (omega arith) (omega arith) h (omega arith))

scan_zero :
    (base max : ℕ) (s : String)
    → 1 ≤ base
    → scan_digits base max 0 (String.◌∷◌ "0" s) ≡ scan_digits base max 0 s
unfolding scan_digits digit_value
scan_zero base max s h = ground arith

scan-zeros :
    (k base max : ℕ) (s : String)
    → 1 ≤ base
    → scan_digits base max 0 (zeros k s) ≡ scan_digits base max 0 s
unfolding zeros
scan-zeros zero base max s h = refl
scan-zeros (suc k) base max s h = scan_zero base max (zeros k s) h ∙ scan-zeros k base max s h

zeros-ne-nil : (k : ℕ) (s : String) → (s == "") ≡ false → (zeros k s == "") ≡ false
unfolding zeros
zeros-ne-nil zero s h = h
zeros-ne-nil (suc k) s h = eq-false _ _ (cons-ne-nil _ _)

-- `%04x` is read back by `ParseUint(_, 16, bits)`.
pub parse_uint-hex4 : (bits n : ℕ) → n ≤ 2 ^ bits - 1 → parse_uint (hex4 n) 16 bits ≡ (n, none)
unfolding parse_uint hex4
parse_uint-hex4 bits n h =
    let k = 4 - count (digits (suc n) 16 n "") in
    rw (zeros-ne-nil k (digits (suc n) 16 n "") (digits-ne-nil n 16 n "")) (
      scan-zeros k 16 (2 ^ bits - 1) (digits (suc n) 16 n "") (omega arith)
      ∙ scan-digits (suc n) 16 (2 ^ bits - 1) n "" (omega arith) (omega arith) h (omega arith))

pub Lacks-digits :
    (sep fuel base n : ℕ) (out : String)
    → sep < 48
    → 2 ≤ base
    → base ≤ 16
    → Lacks sep out
    → Lacks sep (digits fuel base n out)
unfolding digits
Lacks-digits sep zero base n out hs hb h2 l = l
Lacks-digits sep (suc fuel) base n out hs hb h2 l =
    let lt : n % base < base = grind arith in
    let big = (digit_table (n % base) (omega arith)).1 in
    let here : Lacks sep (String.◌∷◌ (digit_char (n % base)) out) = (omega arith, l) in
    elim (Bool-cases (ltb n base)) [
      | inl small ↦ rw small here
      | inr large ↦ rw large (Lacks-digits sep fuel base (n / base) _ hs hb h2 here)
    ]

Lacks-zeros : (sep k : ℕ) (s : String) → sep < 48 → Lacks sep s → Lacks sep (zeros k s)
unfolding zeros
Lacks-zeros sep zero s h l = l
Lacks-zeros sep (suc k) s h l = (omega arith, Lacks-zeros sep k s h l)

-- No space, no comma and no other character below the digits is printed.
pub Lacks-decimal : (sep n : ℕ) → sep < 48 → Lacks sep (decimal n)
unfolding decimal
Lacks-decimal sep n h = Lacks-digits sep (suc n) 10 n "" h (omega arith) (omega arith) tt

pub Lacks-hex4 : (sep n : ℕ) → sep < 48 → Lacks sep (hex4 n)
unfolding hex4
Lacks-hex4 sep n h =
    Lacks-zeros sep (4 - count (digits (suc n) 16 n "")) _ h
      (Lacks-digits sep (suc n) 16 n "" h (omega arith) (omega arith) tt)
