-- ===== src/Uart/Device/Filter.antt =====
-- The removal in place keeps exactly the ports that are not off.
use go_virtualbox.Prelude.{
  ℕ, suc, ◌+◌, not, some, [], ◌∷◌, ◌++◌, ◌≡◌, refl, arith, if◌then◌else◌, length, get_elem?, set,
  take, keep, get_elem?-append, set-append, take-append, append_assoc, append-nil, length-append,
  Bool-cases, inl, inr, ◌∙◌, sym,
}
use go_virtualbox.Uart.Device.{Uart, Uarts, is_off, compact, without_uart_having_state_off}

-- the ports that are not off
abbrev pub ports_on : Uarts → Uarts
ports_on = keep (λ uart. not (is_off uart))

-- the result of the loop: the first positions of the array that it leaves
abbrev kept : Uarts × ℕ → Uarts
kept (written, n) = take n written

compact_step :
    (left i n : ℕ) (arr : Uarts) (uart : Uart)
    → get_elem? arr i ≡ some uart
    → compact (suc left) i n arr ≡ (
        if is_off uart
        then compact left (suc i) n arr
        else compact left (suc i) (suc n) (set arr n uart))
unfolding compact
compact_step left i n arr uart h = rw (h, compact)

-- the array holds `done`, then the positions `gap` that are read, then those still to read
module _ (uart : Uart) (rest done : Uarts) where
  at_read :
      (gap : Uarts)
      → get_elem? (done ++ (gap ++ uart ∷ rest)) (length done + length gap) ≡ some uart
  at_read gap =
      rw (← append_assoc done gap (uart ∷ rest), ← length-append done gap)
        (get_elem?-append (done ++ gap) rest uart)

  grown : (gap : Uarts) → done ++ (gap ++ uart ∷ rest) ≡ done ++ ((gap ++ uart ∷ []) ++ rest)
  grown gap = rw (append_assoc gap (uart ∷ []) rest)

  written_next :
      (gap : Uarts)
      → (gap' : Uarts) × (set (done ++ (gap ++ uart ∷ rest)) (length done) uart
          ≡ (done ++ uart ∷ []) ++ (gap' ++ rest))
        × (length gap' ≡ length gap)
  written_next [] =
      ([], rw (set-append done rest uart uart, append_assoc done (uart ∷ []) rest), refl)
  written_next (g ∷ gap) = (
    gap ++ uart ∷ [],
    rw (
      set-append done (gap ++ uart ∷ rest) g uart,
      append_assoc gap (uart ∷ []) rest,
      append_assoc done (uart ∷ []) (gap ++ uart ∷ rest),
    ),
    omega (arith, length-append gap (uart ∷ [])),
  )

compact_keeps :
    (rest done gap arr : Uarts) (i n : ℕ)
    → arr ≡ done ++ (gap ++ rest)
    → i ≡ length done + length gap
    → n ≡ length done
    → kept (compact (length rest) i n arr) ≡ done ++ ports_on rest
compact_keeps [] done gap arr i n ea ei en =
    unfold compact in rw (ea, en) (take-append done (gap ++ []) ∙ sym (append-nil done))
compact_keeps (uart ∷ rest) done gap arr i n ea ei en =
    let read : get_elem? arr i ≡ some uart = rw (ea, ei) (at_read uart rest done gap) in
    let step = compact_step (length rest) i n arr uart read in
    elim (Bool-cases (is_off uart)) [
      | inl off ↦ rw step (
          rw off (
            compact_keeps rest done (gap ++ uart ∷ []) arr (suc i) n (ea ∙ grown uart rest done gap)
              (omega (arith, length-append gap (uart ∷ []))) en))
      | inr on ↦
          let (gap', written, same) = written_next uart rest done gap in
          rw step (
            rw on (
              compact_keeps rest (done ++ uart ∷ []) gap' (set arr n uart) (suc i) (suc n)
                (rw (ea, en) written) (omega (arith, length-append done (uart ∷ [])))
                (omega (arith, length-append done (uart ∷ [])))
              ∙ append_assoc done (uart ∷ []) (ports_on rest)))
    ]

-- The loop that overwrites the slice it reads leaves exactly the ports that are not off, in their order.
pub without_off-ports_on : (uarts : Uarts) → without_uart_having_state_off uarts ≡ ports_on uarts
unfolding without_uart_having_state_off
without_off-ports_on uarts = compact_keeps uarts [] [] uarts 0 0 refl refl refl
