-- ===== src/Uart/FromInfo/RoundTrip.antt =====
-- Reading the properties of ports gives the ports back.
use go_virtualbox.Prelude.{
  ℕ, ◌^◌, ◌<◌, String, true, false, some, [], ◌∷◌, ◌==◌, append, lookup, ◌≡◌, ◌≢◌, refl, arith, ◌∙◌,
  sym, ap, eq_iff, eq-false, Bool-cases, inl, inr,
}
use go_virtualbox.Go.Files.{Stat}
use go_virtualbox.Go.Outcome.{ok}
use go_virtualbox.Go.Strconv.{decimal}
use go_virtualbox.Go.Strings.{Lacks, split, split-append, split-Lacks, append-one}
use go_virtualbox.Uart.Key.{
  uart1, uart2, uart3, uart4, to_rank, uart_key_from_rank, uart_key_from_rank-to_rank,
}
use go_virtualbox.Uart.Kinds.{
  mode_server, mode_client, mode_tcp_server, mode_tcp_client, mode_file, mode_disconnected,
  is_supported_uart_type,
}
use go_virtualbox.Uart.Device.{Uart, uart_off_from_key}
use go_virtualbox.Uart.FromInfo.{
  PropMap, is_data_mode, mode_of_parts, init_uart_mode_from_vm_info_map,
  init_uart_type_from_vm_info_map, uart_of_rank, new_uarts,
}
use go_virtualbox.Uart.Com.RoundTrip.{
  to_vm_info_value_uart_n, split-value, init_from_vm_info_value-to_vm_info_value,
}
use go_virtualbox.Uart.Com.{BasicSerialComConfig}

-- no mode of the inner `switch` holds a comma
Lacks-is_data_mode : (mode : String) → is_data_mode mode ≡ true → Lacks b',' mode
unfolding is_data_mode
Lacks-is_data_mode mode h = elim (Bool-cases (mode == mode_client)) [
  | inl e ↦ rw ((eq_iff mode mode_client).0 e) (omega arith)
  | inr e1 ↦ elim (Bool-cases (mode == mode_disconnected)) [
    | inl e ↦ rw ((eq_iff mode mode_disconnected).0 e) (omega arith)
    | inr e2 ↦ elim (Bool-cases (mode == mode_file)) [
      | inl e ↦ rw ((eq_iff mode mode_file).0 e) (omega arith)
      | inr e3 ↦ elim (Bool-cases (mode == mode_server)) [
        | inl e ↦ rw ((eq_iff mode mode_server).0 e) (omega arith)
        | inr e4 ↦ elim (Bool-cases (mode == mode_tcp_client)) [
          | inl e ↦ rw ((eq_iff mode mode_tcp_client).0 e) (omega arith)
          | inr e5 ↦
              rw ((eq_iff mode mode_tcp_server).0 (rw (e1, e2, e3, e4, e5) at h)) (omega arith)
        ]
      ]
    ]
  ]
]

-- the value of `uartmode<N>` for a mode with data
abbrev pub mode_value : String → String → String
mode_value mode mode_data = append mode (append "," mode_data)

split-mode_value :
    (mode mode_data : String)
    → Lacks b',' mode
    → Lacks b',' mode_data
    → split b',' (mode_value mode mode_data) ≡ mode ∷ mode_data ∷ []
split-mode_value mode mode_data lm ld =
    rw (append-one "," mode_data)
      (split-append b',' mode mode_data "," refl lm ∙ ap (◌∷◌ mode) (split-Lacks b',' mode_data ld))

mode_value-ne :
    (mode mode_data : String)
    → Lacks b',' mode
    → Lacks b',' mode_data
    → mode_value mode mode_data ≢ mode_disconnected
mode_value-ne mode mode_data lm ld e =
    cc (split-mode_value mode mode_data lm ld, split-Lacks b',' mode_disconnected (omega arith))

-- What the properties say of the mode of a port.
pub data SaysMode (props : PropMap) (rank : ℕ) (uart : Uart) : Type 0 where
  with_data :
      is_data_mode uart.mode ≡ true
      → Lacks b',' uart.mode_data
      → lookup (append "uartmode" (decimal rank)) props ≡ some (mode_value uart.mode uart.mode_data)
      → SaysMode props rank uart
  disconnected :
      uart.mode ≡ mode_disconnected
      → uart.mode_data ≡ ""
      → lookup (append "uartmode" (decimal rank)) props ≡ some mode_disconnected
      → SaysMode props rank uart

-- What the properties say of a port.
pub data Says (props : PropMap) (rank : ℕ) (uart : Uart) : Type 0 where
  off :
      uart ≡ uart_off_from_key uart.key → lookup uart.key props ≡ some "off" → Says props rank uart
  on :
      uart.com_config.port < 2 ^ 64
      → uart.com_config.irq < 2 ^ 32
      → is_supported_uart_type uart.uart_type ≡ true
      → lookup uart.key props ≡ some (to_vm_info_value_uart_n uart.com_config)
      → SaysMode props rank uart
      → lookup (append "uarttype" (decimal rank)) props ≡ some uart.uart_type
      → Says props rank uart

module _ (stat : Stat) (props : PropMap) (rank : ℕ) where
  -- the port before its mode is read
  abbrev with_com : Uart → Uart
  with_com uart = record (uart_off_from_key uart.key) { com_config = uart.com_config }

  abbrev with_mode : Uart → Uart
  with_mode uart = record uart { uart_type = "" }

  mode_is_read :
      (uart : Uart)
      → to_rank uart.key ≡ ok rank
      → SaysMode props rank uart
      → init_uart_mode_from_vm_info_map stat props (with_com uart) ≡ ok (with_mode uart)
  unfolding init_uart_mode_from_vm_info_map
  mode_is_read uart h (disconnected m d l) = rw h (rw l (ground arith))
  mode_is_read uart h (with_data m d l) =
      let lm = Lacks-is_data_mode uart.mode m in
      rw h (
        rw l (
          rw
            (
              eq-false _ _ (mode_value-ne uart.mode uart.mode_data lm d),
              split-mode_value uart.mode uart.mode_data lm d,
              mode_of_parts,
            )
            (rw m)))

  type_is_read :
      (uart : Uart)
      → to_rank uart.key ≡ ok rank
      → is_supported_uart_type uart.uart_type ≡ true
      → lookup (append "uarttype" (decimal rank)) props ≡ some uart.uart_type
      → init_uart_type_from_vm_info_map props (with_mode uart) ≡ ok uart
  unfolding init_uart_type_from_vm_info_map
  type_is_read uart h t l = rw h (rw l (rw t))

  value-ne-off : (config : BasicSerialComConfig) → (to_vm_info_value_uart_n config == "off") ≡ false
  unfolding to_vm_info_value_uart_n
  value-ne-off config =
      eq-false _ _
        (λ e. cc (split-value config.port config.irq, split-Lacks b',' "off" (omega arith), e))

  port_is_read :
      (uart : Uart)
      → uart_key_from_rank rank ≡ ok uart.key
      → Says props rank uart
      → uart_of_rank stat props rank ≡ ok uart
  unfolding uart_of_rank
  port_is_read uart k (off e l) = rw k (rw l (ap ok (sym e)))
  port_is_read uart k (on p i t l m y) =
      let h = (uart_key_from_rank-to_rank rank uart.key).0 k in
      rw k (
        rw l (
          rw
            (
              value-ne-off uart.com_config,
              init_from_vm_info_value-to_vm_info_value uart.com_config p i,
              mode_is_read uart h m,
            )
            (type_is_read uart h t y)))

-- The properties that `showvminfo` prints for four ports, each off or with a supported type, a
-- mode that has data without a comma or is `disconnected`, and numbers that fit, are read back as
-- these ports.
pub new_uarts-Says :
    (stat : Stat) (props : PropMap) (u1 u2 u3 u4 : Uart)
    → u1.key ≡ uart1
    → u2.key ≡ uart2
    → u3.key ≡ uart3
    → u4.key ≡ uart4
    → Says props 1 u1
    → Says props 2 u2
    → Says props 3 u3
    → Says props 4 u4
    → new_uarts stat props ≡ ok (u1 ∷ u2 ∷ u3 ∷ u4 ∷ [])
unfolding new_uarts
new_uarts-Says stat props u1 u2 u3 u4 k1 k2 k3 k4 s1 s2 s3 s4 =
    let at =
      λ (rank : ℕ) (u : Uart) (k : uart_key_from_rank rank ≡ ok u.key) (s : Says props rank u).
        port_is_read stat props rank u k s in
    rw (
      at 1 u1 (rw k1 (unfold uart_key_from_rank in refl)) s1,
      at 2 u2 (rw k2 (unfold uart_key_from_rank in refl)) s2,
      at 3 u3 (rw k3 (unfold uart_key_from_rank in refl)) s3,
      at 4 u4 (rw k4 (unfold uart_key_from_rank in refl)) s4,
    )
