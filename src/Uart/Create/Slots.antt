-- ===== src/Uart/Create/Slots.antt =====
-- What `NewUARTsFromUARTMap` puts into each slot.
use go_virtualbox.Prelude.{
  false, some, [], ◌∷◌, ◌++◌, ◌==◌, if◌then◌else◌, Dict, ◌≡◌, arith, ◌∙◌, ap, append_assoc,
  append-nil,
}
use go_virtualbox.Go.Outcome.{ok, bad_uart_key, ◌>>=◌}
use go_virtualbox.Uart.Key.{
  UartKey, uart1, uart2, uart3, uart4, is_supported_key, to_rank, key_case, is_uart1, is_uart2,
  is_uart3, is_uart4, is_unknown,
}
use go_virtualbox.Uart.Device.{Uart, uart_off_from_key}
use go_virtualbox.Uart.Create.{Appended, ErrorOrNil, fill, new_uarts_from_uart_map}

-- the last entry for a key, and a given port if there is none
unfoldable pub entry_or : UartKey → Uart → Dict Uart → Uart
entry_or key default [] = default
entry_or key default ((k, uart) ∷ entries) =
    entry_or key (if k == key then uart else default) entries

-- the errors, one for each key that is not supported
unfoldable pub key_errors : Dict Uart → Appended
key_errors [] = []
key_errors ((k, uart) ∷ entries) =
    let rest = key_errors entries in
    if is_supported_key k then rest else some (bad_uart_key k) ∷ rest

unsupported :
    (k : UartKey)
    → is_supported_key k ≡ false
    → ((k == uart1) ≡ false)
      × ((k == uart2) ≡ false)
      × ((k == uart3) ≡ false)
      × ((k == uart4) ≡ false)
unfolding is_supported_key
unsupported k h = ground arith

fill_slots :
    (entries : Dict Uart) (u1 u2 u3 u4 : Uart) (errs : Appended)
    → fill entries (u1 ∷ u2 ∷ u3 ∷ u4 ∷ []) errs
      ≡ ok (
        entry_or uart1 u1 entries
            ∷ entry_or uart2 u2 entries
            ∷ entry_or uart3 u3 entries
            ∷ entry_or uart4 u4 entries
            ∷ [],
        errs ++ key_errors entries,
      )
unfolding fill entry_or key_errors is_supported_key to_rank
fill_slots [] u1 u2 u3 u4 errs = rw append-nil
fill_slots ((k, uart) ∷ entries) u1 u2 u3 u4 errs = elim (key_case k) [
  | is_uart1 e ↦ rw e (fill_slots entries uart u2 u3 u4 errs)
  | is_uart2 e ↦ rw e (fill_slots entries u1 uart u3 u4 errs)
  | is_uart3 e ↦ rw e (fill_slots entries u1 u2 uart u4 errs)
  | is_uart4 e ↦ rw e (fill_slots entries u1 u2 u3 uart errs)
  | is_unknown u p ↦
      let (n1, n2, n3, n4) = unsupported k u in
      rw (n1, n2, n3, n4, fill)
        (fill_slots entries u1 u2 u3 u4 (errs ++ some (bad_uart_key k) ∷ [])
          ∙ ap
              (λ out. ok (
                entry_or uart1 u1 entries
                    ∷ entry_or uart2 u2 entries
                    ∷ entry_or uart3 u3 entries
                    ∷ entry_or uart4 u4 entries
                    ∷ [],
                out,
              ))
              (append_assoc errs (some (bad_uart_key k) ∷ []) (key_errors entries)))
]

-- In whatever order the map yields its entries, `NewUARTsFromUARTMap` fills the slot of each known
-- key with the key's last entry, or with the port that is off if there is none, and reports the
-- unsupported keys, one error for each.
pub new_uarts_from_uart_map-entry_or :
    {E : Type 0} (error_or_nil : ErrorOrNil E) (entries : Dict Uart)
    → new_uarts_from_uart_map error_or_nil entries
      ≡ ok (
        entry_or uart1 (uart_off_from_key uart1) entries
            ∷ entry_or uart2 (uart_off_from_key uart2) entries
            ∷ entry_or uart3 (uart_off_from_key uart3) entries
            ∷ entry_or uart4 (uart_off_from_key uart4) entries
            ∷ [],
        error_or_nil (key_errors entries),
      )
unfolding new_uarts_from_uart_map
new_uarts_from_uart_map-entry_or error_or_nil entries =
    ap (λ call. call >>= λ (uarts, errs). ok (uarts, error_or_nil errs))
      (fill_slots entries (uart_off_from_key uart1) (uart_off_from_key uart2)
        (uart_off_from_key uart3) (uart_off_from_key uart4) [])
