-- ===== src/Uart/FromInfo/Ports.antt =====
-- uart.go: what the ports are that `NewUARTs` returns, whatever the properties say.
use mathlib.Core.Path.{subst}
use go_virtualbox.Prelude.{
  ℕ, append, String, false, Option, none, some, List, [], ◌∷◌, ◌==◌, ◌≡◌, inl, inr, refl, sym, ap,
  ◌∙◌, lookup, eq_iff, Bool-cases,
}
use go_virtualbox.Go.Files.{Stat, FileType, equals_char_device}
use go_virtualbox.Go.Outcome.{ok, >>=-eq-ok}
use go_virtualbox.Go.Strings.{split}
use go_virtualbox.Go.Strconv.{decimal}
use go_virtualbox.Uart.Key.{UartKey, to_rank, uart_key_from_rank}
use go_virtualbox.Uart.Com.{BasicSerialComConfig, init_from_vm_info_value}
use go_virtualbox.Uart.Kinds.{is_supported_uart_type}
use go_virtualbox.Uart.FromInfo.Modes.{
  HasMode, no_mode, not_connected, with_data, on_device, HasType, no_type, has_type, PortIs,
  is_missing, is_off, is_on, is_data_mode-TakesData, is_supported_uart_type-IsType,
}
use go_virtualbox.Uart.Device.{Uart, Uarts, uart_off_from_key}
use go_virtualbox.Uart.FromInfo.{
  PropMap, is_data_mode, mode_of_stat, mode_of_parts, mode_of_value, mode_of_entry, type_of_entry,
  init_uart, init_uart_mode_from_vm_info_map, init_uart_type_from_vm_info_map, uart_of_entry,
  uart_of_rank, uarts_of_ranks, new_uarts,
}

ok_same : {A : Type 0} {x y : A} → ok x ≡ ok y → x ≡ y
ok_same h = cc

abbrev port : BasicSerialComConfig → String → String → String → UartKey → Uart
port config uart_type mode mode_data key = record {
  com_config = config;
  uart_type = uart_type;
  mode = mode;
  mode_data = mode_data;
  key = key;
}

module _ (stat : Stat) (config : BasicSerialComConfig) (key : UartKey) (uart : Uart) where
  abbrev Moded : Option String → Type 0
  Moded o =
      (mode : String) × (mode_data : String) × HasMode stat o mode mode_data
      × (port config "" mode mode_data key ≡ uart)

  from_stat :
      (value path : String) (o : Option FileType)
      → split b',' value ≡ path ∷ []
      → stat path ≡ o
      → mode_of_stat (port config "" "" "" key) path o ≡ ok uart
      → Moded (some value)
  unfolding mode_of_stat
  from_stat value path none e found h = absurd (cc h)
  from_stat value path (some ftype) e found h = elim (Bool-cases (equals_char_device ftype)) [
    | inl is_device ↦ ("hostdevice", path, on_device e found is_device, ok_same (rw is_device at h))
    | inr other ↦ absurd (cc (rw other at h))
  ]

  from_parts :
      (value : String) (parts : List String)
      → split b',' value ≡ parts
      → mode_of_parts stat (port config "" "" "" key) value parts ≡ ok uart
      → Moded (some value)
  unfolding mode_of_parts
  from_parts value [] e h = absurd (cc h)
  from_parts value (path ∷ []) e h = from_stat value path (stat path) e refl h
  from_parts value (mode ∷ mode_data ∷ []) e h = elim (Bool-cases (is_data_mode mode)) [
    | inl known ↦
        (mode, mode_data, with_data e (is_data_mode-TakesData mode known), ok_same (rw known at h))
    | inr n ↦ absurd (cc (rw n at h))
  ]
  from_parts value (a ∷ b ∷ c ∷ parts) e h = absurd (cc h)

  from_mode :
      (o : Option String) → mode_of_entry stat (port config "" "" "" key) o ≡ ok uart → Moded o
  unfolding mode_of_entry mode_of_value
  from_mode none h = ("", "", no_mode, ok_same h)
  from_mode (some value) h = elim (Bool-cases (value == "disconnected")) [
    | inl e ↦ (
      "disconnected",
      "",
      subst (λ v. HasMode stat (some v) "disconnected" "") (sym ((eq_iff value "disconnected").0 e))
          not_connected,
      ok_same (rw e at h),
    )
    | inr n ↦ from_parts value (split b',' value) refl (rw n at h)
  ]

module _ (stat : Stat) (config : BasicSerialComConfig) (mode mode_data : String) (key : UartKey)
    (uart : Uart) where
  from_type :
      (o : Option String)
      → type_of_entry (port config "" mode mode_data key) o ≡ ok uart
      → (t : String) × HasType o t × (port config t mode mode_data key ≡ uart)
  unfolding type_of_entry
  from_type none h = ("", no_type, ok_same h)
  from_type (some value) h = elim (Bool-cases (is_supported_uart_type value)) [
    | inl known ↦
        (value, has_type (is_supported_uart_type-IsType value known), ok_same (rw known at h))
    | inr n ↦ absurd (cc (rw n at h))
  ]

-- the port of a rank, whose properties have these names
module _ (stat : Stat) (props : PropMap) (rank : ℕ) (key : String) (uart : Uart)
    (ranked : to_rank key ≡ ok rank) where
  abbrev IsHere : Uart → Type 0
  IsHere =
      PortIs stat props key (append "uartmode" (decimal rank)) (append "uarttype" (decimal rank))

  mode_entry :
      (config : BasicSerialComConfig) (moded : Uart)
      → init_uart_mode_from_vm_info_map stat props (port config "" "" "" key) ≡ ok moded
      → mode_of_entry stat
          (port config "" "" "" key)
          (lookup (append "uartmode" (decimal rank)) props)
        ≡ ok moded
  unfolding init_uart_mode_from_vm_info_map
  mode_entry config moded h = rw ranked at h

  type_entry :
      (config : BasicSerialComConfig) (mode mode_data : String) (moded : Uart)
      → port config "" mode mode_data key ≡ moded
      → init_uart_type_from_vm_info_map props moded ≡ ok uart
      → type_of_entry
          (port config "" mode mode_data key)
          (lookup (append "uarttype" (decimal rank)) props)
        ≡ ok uart
  unfolding init_uart_type_from_vm_info_map
  type_entry config mode mode_data moded is_moded h = rw ranked at (rw (sym is_moded) at h)

  from_value :
      (value : String)
      → lookup key props ≡ some value
      → (value == "off") ≡ false
      → init_uart stat props (uart_off_from_key key) value ≡ ok uart
      → IsHere uart
  unfolding init_uart
  from_value value there on h =
      let (config, c, h1) = >>=-eq-ok (init_from_vm_info_value value) _ h in
      let (moded, m, h2) =
        >>=-eq-ok (init_uart_mode_from_vm_info_map stat props (port config "" "" "" key)) _ h1 in
      let (mode, mode_data, has_mode, is_moded) =
        from_mode stat config key moded (lookup (append "uartmode" (decimal rank)) props)
          (mode_entry config moded m) in
      let (t, has, is_port) =
        from_type stat config mode mode_data key uart
          (lookup (append "uarttype" (decimal rank)) props)
          (type_entry config mode mode_data moded is_moded h2) in
      subst IsHere is_port (is_on there on c has_mode has refl)

  from_entry :
      (o : Option String)
      → lookup key props ≡ o
      → uart_of_entry stat props (uart_off_from_key key) o ≡ ok uart
      → IsHere uart
  unfolding uart_of_entry
  from_entry none there h = subst IsHere (ok_same h) (is_missing there)
  from_entry (some value) there h = elim (Bool-cases (value == "off")) [
    | inl e ↦
        subst IsHere (ok_same (rw e at h))
          (is_off (there ∙ ap (λ v. some v) ((eq_iff value "off").0 e)))
    | inr on ↦ from_value value there on (rw on at h)
  ]

-- the four ports, in the order of their keys
pub record ArePorts (stat : Stat) (props : PropMap) (uarts : Uarts) : Type 0 where
  pub first : Uart
  pub second : Uart
  pub third : Uart
  pub fourth : Uart
  pub all : uarts ≡ first ∷ second ∷ third ∷ fourth ∷ []
  pub first_is : PortIs stat props "uart1" "uartmode1" "uarttype1" first
  pub second_is : PortIs stat props "uart2" "uartmode2" "uarttype2" second
  pub third_is : PortIs stat props "uart3" "uartmode3" "uarttype3" third
  pub fourth_is : PortIs stat props "uart4" "uartmode4" "uarttype4" fourth

module _ (stat : Stat) (props : PropMap) where
  from_rank :
      (rank : ℕ) (key : String) (uart : Uart)
      → uart_key_from_rank rank ≡ ok key
      → to_rank key ≡ ok rank
      → uart_of_rank stat props rank ≡ ok uart
      → PortIs stat props key
          (append "uartmode" (decimal rank))
          (append "uarttype" (decimal rank))
          uart
  unfolding uart_of_rank
  from_rank rank key uart known ranked h =
      from_entry stat props rank key uart ranked (lookup key props) refl (rw known at h)

  -- Ports that `NewUARTs` returns are as the properties describe them.
  pub new_uarts-ArePorts :
      (uarts : Uarts) → new_uarts stat props ≡ ok uarts → ArePorts stat props uarts
  unfolding new_uarts uarts_of_ranks decimal uart_key_from_rank to_rank
  new_uarts-ArePorts uarts h =
      let (u1, k1, h1) = >>=-eq-ok (uart_of_rank stat props 1) _ h in
      let (u2, k2, h2) = >>=-eq-ok (uart_of_rank stat props 2) _ h1 in
      let (u3, k3, h3) = >>=-eq-ok (uart_of_rank stat props 3) _ h2 in
      let (u4, k4, h4) = >>=-eq-ok (uart_of_rank stat props 4) _ h3 in
      record {
        first = u1;
        second = u2;
        third = u3;
        fourth = u4;
        all = sym (ok_same h4);
        first_is = from_rank 1 "uart1" u1 refl refl k1;
        second_is = from_rank 2 "uart2" u2 refl refl k2;
        third_is = from_rank 3 "uart3" u3 refl refl k3;
        fourth_is = from_rank 4 "uart4" u4 refl refl k4;
      }
