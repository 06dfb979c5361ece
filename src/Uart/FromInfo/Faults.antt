-- ===== src/Uart/FromInfo/Faults.antt =====
-- What `NewUARTs` refuses, where it panics, and what it always keeps.
use go_virtualbox.Prelude.{
  ℕ, ◌<◌, String, Char, code, true, Option, none, some, List, [], ◌∷◌, ◌++◌, ◌==◌, append, lookup,
  ◌≡◌, ◌≢◌, refl, arith, ◌∙◌, sym, ap, eq-false, Bool-cases, inl, inr, map,
}
use go_virtualbox.Go.Files.{Stat, FileType, equals_char_device}
use go_virtualbox.Go.Outcome.{ok, err, panic, slice_out_of_range, bad_uart_mode, >>=-eq-ok}
use go_virtualbox.Go.Strconv.{decimal}
use go_virtualbox.Go.Strings.{Lacks, split, split-cons, split-append, split-Lacks, append-one}
use go_virtualbox.Uart.Com.{init_from_vm_info_value, from_second}
use go_virtualbox.Uart.Key.{UartKey, known_uart_keys, to_rank, uart_key_from_rank}
use go_virtualbox.Uart.Kinds.{mode_disconnected}
use go_virtualbox.Uart.Device.{Uart, Uarts}
use go_virtualbox.Uart.FromInfo.{
  PropMap, mode_of_parts, mode_of_entry, type_of_entry, init_uart_mode_from_vm_info_map,
  init_uart_type_from_vm_info_map, init_uart, uart_of_entry, uart_of_rank, uarts_of_ranks,
  new_uarts,
}

-- A property whose part before the comma is one ASCII character makes the parse of the base panic,
-- since the source cuts two bytes off without looking.
pub init_from_vm_info_value_panics :
    (c : Char) (irq : String)
    → code c < 128
    → code c ≢ b','
    → Lacks b',' irq
    → init_from_vm_info_value (String.◌∷◌ c (String.◌∷◌ "," irq)) ≡ panic slice_out_of_range
unfolding init_from_vm_info_value from_second
init_from_vm_info_value_panics c irq small other l =
    let parts : split b',' (String.◌∷◌ c (String.◌∷◌ "," irq)) ≡ String.◌∷◌ c String.[] ∷ irq ∷ [] =
      unfold split in ground (arith, split-Lacks b',' irq l) in
    rw parts (ground arith)

-- A path to a file whose type has the device bit is refused, though a character device on Unix has
-- that bit beside the one tested.
pub host_device_refused :
    (stat : Stat) (props : PropMap) (uart : Uart) (rank : ℕ) (path : String) (t : FileType)
    → to_rank uart.key ≡ ok rank
    → lookup (append "uartmode" (decimal rank)) props ≡ some path
    → path ≢ mode_disconnected
    → Lacks b',' path
    → stat path ≡ some t
    → t.device ≡ true
    → init_uart_mode_from_vm_info_map stat props uart ≡ err (bad_uart_mode path)
unfolding init_uart_mode_from_vm_info_map mode_of_parts equals_char_device
host_device_refused stat props uart rank path t h l ne lacks s d = rw h (
    rw l
      (rw (eq-false path mode_disconnected ne, split-Lacks b',' path lacks) (rw s (ground arith))))

split_twice :
    (mode first rest : String)
    → Lacks b',' mode
    → Lacks b',' first
    → split b',' (append mode (append "," (append first (append "," rest))))
      ≡ mode ∷ first ∷ split b',' rest
split_twice mode first rest lm lf =
    rw (append-one "," rest, append-one "," (append first (String.◌∷◌ "," rest)))
      (split-append b',' mode _ "," refl lm
        ∙ ap (◌∷◌ mode) (split-append b',' first rest "," refl lf))

-- A mode whose data holds a comma is refused: the value has more than two parts.
pub comma_refused :
    (stat : Stat) (props : PropMap) (uart : Uart) (rank : ℕ) (value mode first rest : String)
    → to_rank uart.key ≡ ok rank
    → Lacks b',' mode
    → Lacks b',' first
    → value ≡ append mode (append "," (append first (append "," rest)))
    → lookup (append "uartmode" (decimal rank)) props ≡ some value
    → init_uart_mode_from_vm_info_map stat props uart ≡ err (bad_uart_mode value)
unfolding init_uart_mode_from_vm_info_map mode_of_parts
comma_refused stat props uart rank value mode first rest h lm lf v l =
    let (p, ps, e) = split-cons b',' rest in
    let parts : split b',' value ≡ mode ∷ first ∷ p ∷ ps =
      rw v (split_twice mode first rest lm lf ∙ rw e) in
    let other : value ≢ mode_disconnected =
      λ d. cc (parts, split-Lacks b',' mode_disconnected (omega arith), d) in
    rw h (rw l (rw (eq-false value mode_disconnected other, parts)))

module _ (stat : Stat) (uart : Uart) where
  -- the key stays through the three steps
  parts_key :
      (uart' : Uart) (value : String) (parts : List String)
      → mode_of_parts stat uart value parts ≡ ok uart'
      → uart'.key ≡ uart.key
  unfolding mode_of_parts
  parts_key uart' value [] h = cc
  parts_key uart' value (path ∷ []) h = ground arith
  parts_key uart' value (mode ∷ mode_data ∷ []) h = ground arith
  parts_key uart' value (a ∷ b ∷ c ∷ rest) h = cc

  mode_key :
      (uart' : Uart) (entry : Option String)
      → mode_of_entry stat uart entry ≡ ok uart'
      → uart'.key ≡ uart.key
  unfolding mode_of_entry
  mode_key uart' none h = ground arith
  mode_key uart' (some value) h = elim (Bool-cases (value == mode_disconnected)) [
    | inl same ↦ ground arith
    | inr other ↦ parts_key uart' value (split b',' value) (rw other at h)
  ]

type_key :
    (uart uart' : Uart) (entry : Option String)
    → type_of_entry uart entry ≡ ok uart'
    → uart'.key ≡ uart.key
unfolding type_of_entry
type_key uart uart' none h = ground arith
type_key uart uart' (some value) h = ground arith

init_mode_key :
    (stat : Stat) (props : PropMap) (uart uart' : Uart)
    → init_uart_mode_from_vm_info_map stat props uart ≡ ok uart'
    → uart'.key ≡ uart.key
unfolding init_uart_mode_from_vm_info_map
init_mode_key stat props uart uart' h =
    let (rank, _, e) = >>=-eq-ok (to_rank uart.key) _ h in
    mode_key stat uart uart' (lookup (append "uartmode" (decimal rank)) props) e

init_type_key :
    (props : PropMap) (uart uart' : Uart)
    → init_uart_type_from_vm_info_map props uart ≡ ok uart'
    → uart'.key ≡ uart.key
unfolding init_uart_type_from_vm_info_map
init_type_key props uart uart' h =
    let (rank, _, e) = >>=-eq-ok (to_rank uart.key) _ h in
    type_key uart uart' (lookup (append "uarttype" (decimal rank)) props) e

init_uart_key :
    (stat : Stat) (props : PropMap) (uart uart' : Uart) (value : String)
    → init_uart stat props uart value ≡ ok uart'
    → uart'.key ≡ uart.key
unfolding init_uart
init_uart_key stat props uart uart' value h =
    let (config, _, e) = >>=-eq-ok (init_from_vm_info_value value) _ h in
    let (middle, m, t) =
      >>=-eq-ok (init_uart_mode_from_vm_info_map stat props (record uart { com_config = config })) _
        e in
    init_type_key props middle uart' t ∙ init_mode_key stat props _ middle m

entry_key :
    (stat : Stat) (props : PropMap) (uart uart' : Uart) (entry : Option String)
    → uart_of_entry stat props uart entry ≡ ok uart'
    → uart'.key ≡ uart.key
unfolding uart_of_entry
entry_key stat props uart uart' none h = ground arith
entry_key stat props uart uart' (some value) h =
    ground (arith, init_uart_key stat props uart uart' value)

rank_key :
    (stat : Stat) (props : PropMap) (rank : ℕ) (uart : Uart)
    → uart_of_rank stat props rank ≡ ok uart
    → uart_key_from_rank rank ≡ ok uart.key
unfolding uart_of_rank
rank_key stat props rank uart h =
    let (key, k, e) = >>=-eq-ok (uart_key_from_rank rank) _ h in
    k ∙ ap ok (sym (entry_key stat props _ uart (lookup key props) e))

abbrev pub keys : Uarts → List UartKey
keys = map (λ uart. uart.key)

ranks_keys :
    (stat : Stat) (props : PropMap) (rank : ℕ) (ranks : List ℕ) (uarts out : Uarts)
    → uarts_of_ranks stat props (rank ∷ ranks) uarts ≡ ok out
    → (uart : Uart) × (uart_key_from_rank rank ≡ ok uart.key)
      × (uarts_of_ranks stat props ranks (uarts ++ uart ∷ []) ≡ ok out)
unfolding uarts_of_ranks
ranks_keys stat props rank ranks uarts out h =
    let (uart, u, e) = >>=-eq-ok (uart_of_rank stat props rank) _ h in
    (uart, rank_key stat props rank uart u, e)

-- Whatever the properties say, ports that `NewUARTs` returns are four, with the known keys in
-- their order.
pub new_uarts-keys :
    (stat : Stat) (props : PropMap) (uarts : Uarts)
    → new_uarts stat props ≡ ok uarts
    → keys uarts ≡ known_uart_keys
unfolding new_uarts known_uart_keys
new_uarts-keys stat props uarts h =
    let (u1, k1, h1) = ranks_keys stat props 1 (2 ∷ 3 ∷ 4 ∷ []) [] uarts h in
    let (u2, k2, h2) = ranks_keys stat props 2 (3 ∷ 4 ∷ []) (u1 ∷ []) uarts h1 in
    let (u3, k3, h3) = ranks_keys stat props 3 (4 ∷ []) (u1 ∷ u2 ∷ []) uarts h2 in
    let (u4, k4, h4) = ranks_keys stat props 4 [] (u1 ∷ u2 ∷ u3 ∷ []) uarts h3 in
    unfold uarts_of_ranks uart_key_from_rank in cc (h4, k1, k2, k3, k4)
