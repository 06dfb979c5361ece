-- ===== src/Uart/Device.antt =====
-- uart.go: `UART`, `UARTs`, and the removal of ports that are off.
pub mod Filter
use go_virtualbox.Prelude.{
  ℕ, zero, suc, ◌+◌, String, Bool, true, false, Option, none, some, List, [], ◌∷◌, ◌&&◌, nat_eq,
  if◌then◌else◌, length, get_elem?, set, take,
}
use go_virtualbox.Uart.Key.{UartKey, uart1, uart2, uart3, uart4}
use go_virtualbox.Uart.Kinds.{UartType, UartMode}
use go_virtualbox.Uart.Com.{BasicSerialComConfig, zero_com}

pub record Uart : Type 0 where
  pub com_config : BasicSerialComConfig
  pub uart_type : UartType
  pub mode : UartMode
  pub mode_data : String
  pub key : UartKey

abbrev pub Uarts : Type 0
Uarts = List Uart

-- UART{Key: key}
abbrev pub uart_off_from_key : UartKey → Uart
uart_off_from_key key = record {
  com_config = zero_com;
  uart_type = "";
  mode = "";
  mode_data = "";
  key = key;
}

unfoldable pub is_off : Uart → Bool
is_off uart = nat_eq uart.com_config.port 0 && nat_eq uart.com_config.irq 0

unfoldable pub new_uarts_all_off : Uarts
new_uarts_all_off =
    uart_off_from_key uart1
    ∷ uart_off_from_key uart2
    ∷ uart_off_from_key uart3
    ∷ uart_off_from_key uart4
    ∷ []

-- The loop of `WithoutUARTHavingStateOff` over the array that it overwrites: the rounds left, the
-- position read, and the position `n` written next.
unfoldable pub compact : ℕ → ℕ → ℕ → Uarts → Uarts × ℕ
compact zero i n uarts = (uarts, n)
compact (suc left) i n uarts = elim (get_elem? uarts i) [
  | none ↦ (uarts, n)
  | some uart ↦
      let skip = compact left (suc i) n uarts in
      let keep = compact left (suc i) (suc n) (set uarts n uart) in
      if is_off uart then skip else keep
]

unfoldable pub without_uart_having_state_off : Uarts → Uarts
unfolding compact
without_uart_having_state_off uarts =
    let (written, n) = compact (length uarts) 0 0 uarts in take n written
