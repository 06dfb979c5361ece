-- ===== src/Uart/FromInfo/Modes.antt =====
-- uart.go: a port as the properties describe it, with the modes and the types one by one.
use mathlib.Core.Path.{subst}
use go_virtualbox.Prelude.{
  String, true, false, Option, none, some, [], ◌∷◌, lookup, ◌==◌, ◌≡◌, sym, eq_iff, Bool-cases, inl,
  inr,
}
use go_virtualbox.Go.Files.{Stat, FileType, equals_char_device}
use go_virtualbox.Go.Outcome.{ok}
use go_virtualbox.Go.Strings.{split}
use go_virtualbox.Uart.Com.{init_from_vm_info_value}
use go_virtualbox.Uart.Device.{Uart, uart_off_from_key}
use go_virtualbox.Uart.Kinds.{is_supported_uart_type}
use go_virtualbox.Uart.FromInfo.{PropMap, is_data_mode}

-- the modes with data behind a comma
pub data TakesData : String → Type 0 where
  client : TakesData "client"
  no_peer : TakesData "disconnected"
  to_file : TakesData "file"
  server : TakesData "server"
  tcp_client : TakesData "tcpclient"
  tcp_server : TakesData "tcpserver"

pub data IsType : String → Type 0 where
  type_16450 : IsType "16450"
  type_16550a : IsType "16550A"
  type_16750 : IsType "16750"

-- The mode and its data that a property gives, when it is there.
pub data HasMode (stat : Stat) : Option String → String → String → Type 0 where
  no_mode : HasMode stat none "" ""
  not_connected : HasMode stat (some "disconnected") "disconnected" ""
  with_data :
      {value mode mode_data : String}
      → split b',' value ≡ mode ∷ mode_data ∷ []
      → TakesData mode
      → HasMode stat (some value) mode mode_data
  on_device :
      {value path : String} {ftype : FileType}
      → split b',' value ≡ path ∷ []
      → stat path ≡ some ftype
      → equals_char_device ftype ≡ true
      → HasMode stat (some value) "hostdevice" path

pub data HasType : Option String → String → Type 0 where
  no_type : HasType none ""
  has_type : {value : String} → IsType value → HasType (some value) value

-- A port whose property is missing or `off` is off. Any other one has the base and the interrupt of the
-- property, and the mode and the type of the two others with its number.
pub data PortIs (stat : Stat) (props : PropMap) (key mode_key type_key : String)
    : Uart → Type 0 where
  is_missing :
      lookup key props ≡ none → PortIs stat props key mode_key type_key (uart_off_from_key key)
  is_off :
      lookup key props ≡ some "off"
      → PortIs stat props key mode_key type_key (uart_off_from_key key)
  is_on :
      {value : String} {uart : Uart}
      → lookup key props ≡ some value
      → (value == "off") ≡ false
      → init_from_vm_info_value value ≡ ok uart.com_config
      → HasMode stat (lookup mode_key props) uart.mode uart.mode_data
      → HasType (lookup type_key props) uart.uart_type
      → uart.key ≡ key
      → PortIs stat props key mode_key type_key uart

pub is_data_mode-TakesData : (mode : String) → is_data_mode mode ≡ true → TakesData mode
unfolding is_data_mode
is_data_mode-TakesData mode h = elim (Bool-cases (mode == "client")) [
  | inl e ↦ subst TakesData (sym ((eq_iff mode "client").0 e)) client
  | inr n1 ↦ elim (Bool-cases (mode == "disconnected")) [
    | inl e ↦ subst TakesData (sym ((eq_iff mode "disconnected").0 e)) no_peer
    | inr n2 ↦ elim (Bool-cases (mode == "file")) [
      | inl e ↦ subst TakesData (sym ((eq_iff mode "file").0 e)) to_file
      | inr n3 ↦ elim (Bool-cases (mode == "server")) [
        | inl e ↦ subst TakesData (sym ((eq_iff mode "server").0 e)) server
        | inr n4 ↦ elim (Bool-cases (mode == "tcpclient")) [
          | inl e ↦ subst TakesData (sym ((eq_iff mode "tcpclient").0 e)) tcp_client
          | inr n5 ↦
              subst TakesData (sym ((eq_iff mode "tcpserver").0 (rw (n1, n2, n3, n4, n5) at h)))
                tcp_server
        ]
      ]
    ]
  ]
]

pub is_supported_uart_type-IsType : (t : String) → is_supported_uart_type t ≡ true → IsType t
unfolding is_supported_uart_type
is_supported_uart_type-IsType t h = elim (Bool-cases (t == "16450")) [
  | inl e ↦ subst IsType (sym ((eq_iff t "16450").0 e)) type_16450
  | inr n1 ↦ elim (Bool-cases (t == "16550A")) [
    | inl e ↦ subst IsType (sym ((eq_iff t "16550A").0 e)) type_16550a
    | inr n2 ↦ subst IsType (sym ((eq_iff t "16750").0 (rw (n1, n2) at h))) type_16750
  ]
]
