-- ===== src/Go/Net/Plain.antt =====
-- No address is printed with a comma.
use go_virtualbox.Prelude.{
  ℕ, suc, ◌+◌, ◌/◌, ◌%◌, String, Char, code, Bool, true, false, none, some, List, [], ◌∷◌, length,
  take, ltb, nat_eq, ◌≢◌, refl, arith, Bool-cases, inl, inr, if◌then◌else◌,
}
use go_virtualbox.Go.Strconv.{digit_char, digits, decimal}
use go_virtualbox.Go.Strconv.RoundTrip.{Lacks-digits, Lacks-decimal}
use go_virtualbox.Go.Strings.{Lacks, Lacks-append, lacks, Lacks-lacks}
use go_virtualbox.Go.Net.V4.{Ip, to4}
use go_virtualbox.Go.Net.Show.{
  dotted, hex_string, hex_words, compressed, long_string, string_of, ip_string, words_of,
  longest_run, drop,
}

abbrev NoComma : String → Type 0
NoComma s = Lacks b',' s

either-ne :
    (b : Bool) (c d : Char) → code c ≢ b',' → code d ≢ b',' → code (if b then c else d) ≢ b','
either-ne true c d hc hd = hc
either-ne false c d hc hd = hd

digit_char-ne : (n : ℕ) → code (digit_char n) ≢ b','
unfolding digit_char
digit_char-ne n = either-ne (nat_eq n 0) _ _ (omega arith) (
    either-ne (nat_eq n 1) _ _ (omega arith) (
      either-ne (nat_eq n 2) _ _ (omega arith) (
        either-ne (nat_eq n 3) _ _ (omega arith) (
          either-ne (nat_eq n 4) _ _ (omega arith) (
            either-ne (nat_eq n 5) _ _ (omega arith) (
              either-ne (nat_eq n 6) _ _ (omega arith) (
                either-ne (nat_eq n 7) _ _ (omega arith) (
                  either-ne (nat_eq n 8) _ _ (omega arith) (
                    either-ne (nat_eq n 9) _ _ (omega arith) (
                      either-ne (nat_eq n 10) _ _ (omega arith) (
                        either-ne (nat_eq n 11) _ _ (omega arith) (
                          either-ne (nat_eq n 12) _ _ (omega arith) (
                            either-ne (nat_eq n 13) _ _ (omega arith)
                              (either-ne (nat_eq n 14) _ _ (omega arith) (omega arith)))))))))))))))

NoComma-dotted : (bytes : List ℕ) → NoComma (dotted bytes)
unfolding dotted lacks
NoComma-dotted [] = tt
NoComma-dotted (b ∷ []) = Lacks-decimal b',' b (omega arith)
NoComma-dotted (b ∷ c ∷ bytes) =
    Lacks-append b',' (decimal b) _ (Lacks-decimal b',' b (omega arith))
      (Lacks-append b',' "." _ (Lacks-lacks b',' "." refl) (NoComma-dotted (c ∷ bytes)))

NoComma-hex_string : (bytes : List ℕ) → NoComma (hex_string bytes)
unfolding hex_string
NoComma-hex_string [] = tt
NoComma-hex_string (b ∷ bytes) =
    (digit_char-ne (b / 16), (digit_char-ne (b % 16), NoComma-hex_string bytes))

hex_word : (w : ℕ) → NoComma (digits (suc w) 16 w "")
hex_word w = Lacks-digits b',' (suc w) 16 w "" (omega arith) (omega arith) (omega arith) tt

NoComma-hex_words : (ws : List ℕ) → NoComma (hex_words ws)
unfolding hex_words lacks
NoComma-hex_words [] = tt
NoComma-hex_words (w ∷ []) = hex_word w
NoComma-hex_words (w ∷ v ∷ ws) =
    Lacks-append b',' (digits (suc w) 16 w "") _ (hex_word w)
      (Lacks-append b',' ":" _ (Lacks-lacks b',' ":" refl) (NoComma-hex_words (v ∷ ws)))

NoComma-compressed : (ws : List ℕ) (run : ℕ × ℕ) → NoComma (compressed ws run)
unfolding compressed lacks
NoComma-compressed ws (start, len) = elim (Bool-cases (ltb 1 len)) [
  | inl long ↦ rw long (
      Lacks-append b',' (hex_words (take start ws)) _ (NoComma-hex_words (take start ws)) (
        Lacks-append b',' "::" _ (Lacks-lacks b',' "::" refl)
          (NoComma-hex_words (drop (start + len) ws))))
  | inr short ↦ rw short (NoComma-hex_words ws)
]

NoComma-long_string : (bytes : List ℕ) → NoComma (long_string bytes)
unfolding long_string lacks
NoComma-long_string bytes = elim (Bool-cases (nat_eq (length bytes) 16)) [
  | inl long ↦ rw long (NoComma-compressed (words_of bytes) (longest_run 0 (words_of bytes) (0, 0)))
  | inr other ↦
      rw other (Lacks-append b',' "?" _ (Lacks-lacks b',' "?" refl) (NoComma-hex_string bytes))
]

NoComma-string_of : (four : Ip) (bytes : List ℕ) → NoComma (string_of four bytes)
unfolding string_of
NoComma-string_of (some four) bytes = NoComma-dotted four
NoComma-string_of none bytes = NoComma-long_string bytes

pub ip_string-NoComma : (ip : Ip) → Lacks b',' (ip_string ip)
unfolding ip_string lacks
ip_string-NoComma none = Lacks-lacks b',' "<nil>" refl
ip_string-NoComma (some []) = Lacks-lacks b',' "<nil>" refl
ip_string-NoComma (some (b ∷ bytes)) = NoComma-string_of (to4 (some (b ∷ bytes))) (b ∷ bytes)
