-- ===== src/Uart/Key.antt =====
-- uart.go: `UARTKey` and its ranks. A key is any text, as in the source.
use go_virtualbox.Prelude.{
  ℕ, String, Bool, true, false, List, [], ◌∷◌, ◌||◌, ◌==◌, ◌≡◌, refl, arith, if◌then◌else◌, eq_iff,
  nat_eq, ◌≤◌, ◌↔◌, ◌⊎◌, inl, inr, Bool-cases,
}
use go_virtualbox.Go.Outcome.{Outcome, ok, err, panic, unknown_key, bad_rank}

abbrev pub UartKey : Type 0
UartKey = String

abbrev pub uart1 : UartKey
uart1 = "uart1"

abbrev pub uart2 : UartKey
uart2 = "uart2"

abbrev pub uart3 : UartKey
uart3 = "uart3"

abbrev pub uart4 : UartKey
uart4 = "uart4"

unfoldable pub known_uart_keys : List UartKey
known_uart_keys = uart1 ∷ uart2 ∷ uart3 ∷ uart4 ∷ []

unfoldable pub is_supported_key : UartKey → Bool
is_supported_key key = key == uart1 || (key == uart2 || (key == uart3 || key == uart4))

unfoldable pub to_rank : UartKey → Outcome ℕ
to_rank key =
    if key == uart1
    then ok 1
    else if key == uart2
    then ok 2
    else if key == uart3
    then ok 3
    else if key == uart4
    then ok 4
    else panic unknown_key

unfoldable pub uart_key_from_rank : ℕ → Outcome UartKey
uart_key_from_rank rank =
    if nat_eq rank 1
    then ok uart1
    else if nat_eq rank 2
    then ok uart2
    else if nat_eq rank 3
    then ok uart3
    else if nat_eq rank 4
    then ok uart4
    else err (bad_rank rank)

abbrev pub IsSupportedKey : UartKey → Type 0
IsSupportedKey key = is_supported_key key ≡ true

-- the branches of the `switch` on a key
pub data KeyCase (key : UartKey) : Type 0 where
  is_uart1 : key ≡ uart1 → KeyCase key
  is_uart2 : key ≡ uart2 → KeyCase key
  is_uart3 : key ≡ uart3 → KeyCase key
  is_uart4 : key ≡ uart4 → KeyCase key
  is_unknown : is_supported_key key ≡ false → to_rank key ≡ panic unknown_key → KeyCase key

pub key_case : (key : UartKey) → KeyCase key
unfolding is_supported_key to_rank
key_case key = elim (Bool-cases (key == uart1)) [
  | inl e ↦ is_uart1 ((eq_iff key uart1).0 e)
  | inr e1 ↦ elim (Bool-cases (key == uart2)) [
    | inl e ↦ is_uart2 ((eq_iff key uart2).0 e)
    | inr e2 ↦ elim (Bool-cases (key == uart3)) [
      | inl e ↦ is_uart3 ((eq_iff key uart3).0 e)
      | inr e3 ↦ elim (Bool-cases (key == uart4)) [
        | inl e ↦ is_uart4 ((eq_iff key uart4).0 e)
        | inr e4 ↦ is_unknown (ground arith) (ground arith)
      ]
    ]
  ]
]

-- What the rank of a key promises.
abbrev pub RankOf : UartKey → Type 0
RankOf key =
    ((is_supported_key key ≡ false) × (to_rank key ≡ panic unknown_key))
    ⊎ ((rank : ℕ) × (is_supported_key key ≡ true)
        × (to_rank key ≡ ok rank)
        × (uart_key_from_rank rank ≡ ok key)
        × (1 ≤ rank)
        × (rank ≤ 4))

-- `ToRank` gives a supported key a rank from 1 to 4, which `UARTKeyFromRank` takes back to the key;
-- it panics at every other key.
pub to_rank-RankOf : (key : UartKey) → RankOf key
unfolding to_rank uart_key_from_rank is_supported_key
to_rank-RankOf key = elim (key_case key) [
  | is_uart1 e ↦ rw e (inr (1, refl, refl, refl, omega arith, omega arith))
  | is_uart2 e ↦ rw e (inr (2, refl, refl, refl, omega arith, omega arith))
  | is_uart3 e ↦ rw e (inr (3, refl, refl, refl, omega arith, omega arith))
  | is_uart4 e ↦ rw e (inr (4, refl, refl, refl, omega arith, omega arith))
  | is_unknown e p ↦ inl (e, p)
]

pub known_supported :
    (is_supported_key uart1 ≡ true)
    × (is_supported_key uart2 ≡ true)
    × (is_supported_key uart3 ≡ true)
    × (is_supported_key uart4 ≡ true)
unfolding is_supported_key
known_supported = (refl, refl, refl, refl)

pub known_ranks :
    (to_rank uart1 ≡ ok 1)
    × (to_rank uart2 ≡ ok 2)
    × (to_rank uart3 ≡ ok 3)
    × (to_rank uart4 ≡ ok 4)
unfolding to_rank
known_ranks = (refl, refl, refl, refl)

rank_of_key : (rank : ℕ) (key : UartKey) → uart_key_from_rank rank ≡ ok key → to_rank key ≡ ok rank
unfolding uart_key_from_rank
rank_of_key rank key h = ground (arith, known_ranks.0, known_ranks.1, known_ranks.2, known_ranks.3)

key_of_rank : (rank : ℕ) (key : UartKey) → to_rank key ≡ ok rank → uart_key_from_rank rank ≡ ok key
key_of_rank rank key h = elim (to_rank-RankOf key) [
  | inl (e, p) ↦ cc (p, h)
  | inr (r, s, e, back, l, u) ↦ cc (e, h, back)
]

-- `UARTKeyFromRank` is `ToRank` read backwards: it gives a key exactly at the key's rank.
pub uart_key_from_rank-to_rank :
    (rank : ℕ) (key : UartKey) → (uart_key_from_rank rank ≡ ok key) ↔ (to_rank key ≡ ok rank)
uart_key_from_rank-to_rank rank key = (rank_of_key rank key, key_of_rank rank key)
