-- ===== src/Uart/Com/RoundTrip.antt =====
-- The property of a port's base and interrupt is read back.
use go_virtualbox.Prelude.{ℕ, ◌^◌, ◌<◌, String, [], ◌∷◌, append, ◌≡◌, refl, arith, ◌∙◌, ap}
use text.Mathlib.TextLemmas.{append_assoc as string_append_assoc}
use Prim.Native.String.append as Append
use go_virtualbox.Go.Outcome.{ok}
use go_virtualbox.Go.Strconv.{decimal, hex4}
use go_virtualbox.Go.Strconv.RoundTrip.{
  parse_uint-decimal, parse_uint-hex4, Lacks-decimal, Lacks-hex4,
}
use go_virtualbox.Go.Strings.{split, split-append, split-Lacks, Lacks-append, append-one}
use go_virtualbox.Uart.Com.{BasicSerialComConfig, init_from_vm_info_value, from_second}

-- uart_test.go: toVMInfoValueUARTn
unfoldable pub to_vm_info_value_uart_n : BasicSerialComConfig → String
to_vm_info_value_uart_n config =
    append "0x" (append (hex4 config.port) (append "," (decimal config.irq)))

pub split-value :
    (port irq : ℕ)
    → split b',' (append "0x" (append (hex4 port) (append "," (decimal irq))))
      ≡ append "0x" (hex4 port) ∷ decimal irq ∷ []
split-value port irq =
    rw
      (
        append-one "," (decimal irq),
        ← string_append_assoc "0x" (hex4 port) (String.◌∷◌ "," (decimal irq)),
      )
      (split-append b',' (append "0x" (hex4 port)) (decimal irq) "," refl
          (Lacks-append b',' "0x" (hex4 port) (omega arith) (Lacks-hex4 b',' port (omega arith)))
        ∙ ap (◌∷◌ (append "0x" (hex4 port)))
            (split-Lacks b',' (decimal irq) (Lacks-decimal b',' irq (omega arith))))

append-0x : (s : String) → append "0x" s ≡ String.◌∷◌ "0" (String.◌∷◌ "x" s)
append-0x s = Append.cons "0" "x" s ∙ ap (String.◌∷◌ "0") (append-one "x" s)

-- The config of a port is read back from its property, for every base of 64 bits and every
-- interrupt of 32 bits.
pub init_from_vm_info_value-to_vm_info_value :
    (config : BasicSerialComConfig)
    → config.port < 2 ^ 64
    → config.irq < 2 ^ 32
    → init_from_vm_info_value (to_vm_info_value_uart_n config) ≡ ok config
unfolding init_from_vm_info_value to_vm_info_value_uart_n from_second
init_from_vm_info_value-to_vm_info_value config hp hi =
    rw (split-value config.port config.irq, init_from_vm_info_value)
      (rw (append-0x (hex4 config.port)) (
        rw (
          parse_uint-hex4 64 config.port (omega arith),
          parse_uint-decimal 32 config.irq (omega arith),
        )))
