-- ===== src/Uart/Commands/Words.antt =====
-- The exact words of the command line of a port.
use Prim.Native.String.{count}
use text.Mathlib.TextLemmas.{
  append_assoc as string_append_assoc, length-append as string_length-append,
}
use go_virtualbox.Prelude.{
  ℕ, String, false, List, [], ◌∷◌, ◌++◌, ◌==◌, if◌then◌else◌, append, ◌≡◌, ◌≢◌, refl, ◌∙◌, ap,
  Bool-cases, inl, inr, arith,
}
use go_virtualbox.Go.Outcome.{ok}
use go_virtualbox.Go.Strings.{
  split, split-append, split-Lacks, Lacks-append, append-one, append-ne-nil,
}
use go_virtualbox.Go.Strconv.{decimal, hex4}
use go_virtualbox.Go.Strconv.RoundTrip.{Lacks-decimal, Lacks-hex4}
use go_virtualbox.Uart.Key.{to_rank}
use go_virtualbox.Uart.Kinds.{mode_disconnected, mode_host_device}
use go_virtualbox.Uart.Device.{Uart, is_off}
use go_virtualbox.Uart.Commands.{
  mode_parameter, words_of, command_parameters, command_parameter_uart_n,
  command_parameter_uart_mode_n, command_parameter_uart_type_n,
}

split-io :
    (port irq : ℕ)
    → split b' ' (append "0x" (append (hex4 port) (append " " (decimal irq))))
      ≡ append "0x" (hex4 port) ∷ decimal irq ∷ []
split-io port irq =
    rw
      (
        append-one " " (decimal irq),
        ← string_append_assoc "0x" (hex4 port) (String.◌∷◌ " " (decimal irq)),
      )
      (split-append b' ' (append "0x" (hex4 port)) (decimal irq) " " refl
          (Lacks-append b' ' "0x" (hex4 port) (omega arith) (Lacks-hex4 b' ' port (omega arith)))
        ∙ ap (◌∷◌ (append "0x" (hex4 port)))
            (split-Lacks b' ' (decimal irq) (Lacks-decimal b' ' irq (omega arith))))

-- the words for the mode of a port that is on
unfoldable pub mode_words : ℕ → Uart → List String
mode_words rank uart =
    if uart.mode == mode_disconnected
    then append "--uartmode" (decimal rank) ∷ "disconnected" ∷ []
    else if uart.mode == mode_host_device
    then append (append "--uartmode" (decimal rank)) " " ∷ split b' ' uart.mode_data
    else append "--uartmode" (decimal rank)
      ∷ split b' ' (append uart.mode (append " " uart.mode_data))

-- the words for a port whose key has that rank
unfoldable pub port_words : ℕ → Uart → List String
unfolding mode_words
port_words rank uart =
    if is_off uart
    then append "--uart" (decimal rank) ∷ "off" ∷ []
    else (append "--uart" (decimal rank)
        ∷ append "0x" (hex4 uart.com_config.port)
        ∷ decimal uart.com_config.irq
        ∷ [])
      ++ (mode_words rank uart ++ (append "--uarttype" (decimal rank) ∷ split b' ' uart.uart_type))

mode_parameter_named :
    (name : String) (uart : Uart)
    → (name == "") ≡ false
    → ((mode_parameter name uart).0 == "") ≡ false
unfolding mode_parameter
mode_parameter_named name uart h = ground (arith, append-ne-nil name " " h)

words_of-mode_parameter :
    (rank : ℕ) (uart : Uart)
    → words_of
        (mode_parameter (append "--uartmode" (decimal rank)) uart).0
        (mode_parameter (append "--uartmode" (decimal rank)) uart).1
      ≡ mode_words rank uart
unfolding mode_parameter mode_words
words_of-mode_parameter rank uart = ground (arith, split-Lacks b' ' "disconnected" (omega arith))

-- A port whose key has a rank gives the words of that rank: `off` alone for a port that is off, and
-- else the base and the interrupt, the mode with its data, and the type.
pub command_parameters-port_words :
    (uart : Uart) (rank : ℕ)
    → to_rank uart.key ≡ ok rank
    → command_parameters uart ≡ ok (port_words rank uart)
unfolding command_parameters command_parameter_uart_n command_parameter_uart_mode_n
    command_parameter_uart_type_n port_words
command_parameters-port_words uart rank h = elim (Bool-cases (is_off uart)) [
  | inl off ↦
      simp (h, off)
        (rw (append-ne-nil "--uart" (decimal rank) refl) (
          ap (λ ws. ok (append "--uart" (decimal rank) ∷ ws))
            (split-Lacks b' ' "off" (omega arith))))
  | inr on ↦
      simp (h, on)
        (rw (
          append-ne-nil "--uart" (decimal rank) refl,
          append-ne-nil "--uarttype" (decimal rank) refl,
          mode_parameter_named (append "--uartmode" (decimal rank)) uart
              (append-ne-nil "--uartmode" (decimal rank) refl),
          words_of-mode_parameter rank uart,
          split-io uart.com_config.port uart.com_config.irq,
        ))
]

append-ne_self : (s : String) → append s " " ≢ s
append-ne_self s e = absurd (omega (arith, ap count e, string_length-append s " "))

host_device_parameter :
    (uart : Uart) (rank : ℕ)
    → to_rank uart.key ≡ ok rank
    → is_off uart ≡ false
    → uart.mode ≡ mode_host_device
    → command_parameter_uart_mode_n uart
      ≡ ok (append (append "--uartmode" (decimal rank)) " ", uart.mode_data)
unfolding command_parameter_uart_mode_n
host_device_parameter uart rank h on host = simp (h, on, host)

-- For a port that is on and has the mode `hostdevice`, the option that the words give the mode
-- by is not `--uartmode` with the rank.
pub host_device_misnamed :
    (uart : Uart) (rank : ℕ)
    → to_rank uart.key ≡ ok rank
    → is_off uart ≡ false
    → uart.mode ≡ mode_host_device
    → (name value : String) → command_parameter_uart_mode_n uart ≡ ok (name, value)
    → name ≢ append "--uartmode" (decimal rank)
host_device_misnamed uart rank h on host name value e same =
    append-ne_self (append "--uartmode" (decimal rank))
      (cc (host_device_parameter uart rank h on host))
