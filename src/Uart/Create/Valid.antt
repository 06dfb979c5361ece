-- ===== src/Uart/Create/Valid.antt =====
-- What a port is that `NewUART` returns with no error.
use go_virtualbox.Prelude.{String, true, Option, none, some, ◌≡◌, All}
use go_virtualbox.Go.Files.{Stat, FileType}
use go_virtualbox.Go.Scan.{sscanf_0x}
use go_virtualbox.Go.Strconv.{parse_uint}
use go_virtualbox.Uart.Key.{is_supported_key}
use go_virtualbox.Uart.Kinds.{
  mode_host_device, is_supported_uart_type, uart_mode_from_string_if_supported,
}
use go_virtualbox.Uart.Com.{BasicSerialComConfig, zero_com}
use go_virtualbox.Uart.Device.{Uart}
use go_virtualbox.Uart.Create.{Appended}

-- The mode is the one named, with the data given; or the name is the path of a character device,
-- and then it is the data of the mode `hostdevice`.
pub data ModeFrom (stat : Stat) (mode_str mode_data_str mode mode_data : String) : Type 0 where
  named :
      uart_mode_from_string_if_supported mode_str ≡ (mode, none)
      → mode_data ≡ mode_data_str
      → ModeFrom stat mode_str mode_data_str mode mode_data
  device :
      (t : FileType)
      → stat mode_str ≡ some t
      → t.device ≡ true
      → t.char_device ≡ true
      → mode ≡ mode_host_device
      → mode_data ≡ mode_str
      → ModeFrom stat mode_str mode_data_str mode mode_data

-- The numbers are those that the texts stand for; or both texts are empty, and the port is off.
pub data ComFrom (port_str irq_str : String) (config : BasicSerialComConfig) : Type 0 where
  given :
      sscanf_0x port_str ≡ some config.port
      → parse_uint irq_str 10 64 ≡ (config.irq, none)
      → ComFrom port_str irq_str config
  absent : port_str ≡ "" → irq_str ≡ "" → config ≡ zero_com → ComFrom port_str irq_str config

-- only nil errors were appended
abbrev AllNil : Appended → Type 0
AllNil errs = All (λ e. e ≡ none) errs

-- A port with all its parts as the texts give them.
pub record IsFrom (stat : Stat) (key_str type_str port_str irq_str mode_str mode_data_str : String)
    (uart : Uart) : Type 0 where
  pub key_supported : is_supported_key key_str ≡ true
  pub key_is : uart.key ≡ key_str
  pub type_supported : is_supported_uart_type type_str ≡ true
  pub type_is : uart.uart_type ≡ type_str
  pub mode_is : ModeFrom stat mode_str mode_data_str uart.mode uart.mode_data
  pub com_is : ComFrom port_str irq_str uart.com_config
