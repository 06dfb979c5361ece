-- ===== src/Uart/Com.antt =====
-- uart.go: `BasicSerialComConfig`, the I/O base and the interrupt of a port.
pub mod RoundTrip
use go_virtualbox.Prelude.{
  ℕ, zero, suc, String, Bool, true, false, Option, none, some, List, [], ◌∷◌, ◌==◌, ◌&&◌, ◌≡◌, refl,
  arith, if◌then◌else◌, nat_eq, ltb, code, append,
}
use go_virtualbox.Go.Outcome.{Outcome, ok, err, panic, ◌>>=◌, slice_out_of_range, bad_uart_info}
use go_virtualbox.Go.Strconv.{NumError, decimal, hex4, parse_uint}
use go_virtualbox.Go.Strings.{split}

pub record BasicSerialComConfig : Type 0 where
  pub port : ℕ  -- uint
  pub irq : ℕ  -- uint

-- BasicSerialComConfig{}
abbrev pub zero_com : BasicSerialComConfig
zero_com = record { port = 0; irq = 0 }

unfoldable pub port_as_io_base_hex_string : BasicSerialComConfig → String
port_as_io_base_hex_string cc = append "0x" (hex4 cc.port)

unfoldable pub irq_as_string : BasicSerialComConfig → String
irq_as_string cc = decimal cc.irq

abbrev pub com1 : BasicSerialComConfig
com1 = record { port = 0x3F8; irq = 4 }

abbrev pub com2 : BasicSerialComConfig
com2 = record { port = 0x2F8; irq = 3 }

abbrev pub com3 : BasicSerialComConfig
com3 = record { port = 0x3E8; irq = 4 }

abbrev pub com4 : BasicSerialComConfig
com4 = record { port = 0x2E8; irq = 3 }

-- Of s[2:] behind a first byte. A cut inside a character leaves a stray byte, which is no digit:
-- the model leaves the character, which is none either.
after_first : String → Outcome String
after_first String.[] = panic slice_out_of_range
after_first (String.◌∷◌ d s) = if ltb (code d) 128 then ok s else ok (String.◌∷◌ d s)

-- s[2:], which panics on a text of fewer than two bytes; a character takes one byte below 128, two
-- below 2048, and else more.
unfoldable pub from_second : String → Outcome String
unfolding after_first
from_second String.[] = panic slice_out_of_range
from_second (String.◌∷◌ c s) =
    if ltb (code c) 128
    then after_first s
    else if ltb (code c) 2048
    then ok s
    else ok (String.◌∷◌ c s)

parsed : String → ℕ × Option NumError → ℕ × Option NumError → Outcome BasicSerialComConfig
parsed value (port, none) (irq, none) = ok (record { port = port; irq = irq })
parsed value _ _ = err (bad_uart_info value)

init_parts : String → List String → Outcome BasicSerialComConfig
init_parts value (base ∷ irq ∷ []) = do
  digits ← from_second base
  parsed value (parse_uint digits 16 64) (parse_uint irq 10 32)
init_parts value _ = err (bad_uart_info value)

-- The config is written only on success, so the result is the new config.
unfoldable pub init_from_vm_info_value : String → Outcome BasicSerialComConfig
unfolding init_parts parsed
init_from_vm_info_value value = init_parts value (split b',' value)
