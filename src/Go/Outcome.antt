-- ===== src/Go/Outcome.antt =====
-- A Go call that returns `(v, error)`, or panics.
use Prim.Native.Nat.{ℕ}
use Prim.Native.String.{String}
use mathlib.Core.Path.{◌≡◌, refl}

-- The errors of `os/exec`: the command is not found, it could not be started, or it ran and failed.
pub data Failure : Type 0 where
  err_not_found : Failure
  exec_error : String → Failure → Failure
  exit_error : String → Failure

-- The errors that the program makes, one constructor for each place; the message's text is left
-- out, and the values that it quotes are kept. `exec_failed` is an error of the command itself.
pub data Error : Type 0 where
  machine_exist machine_not_exist command_not_found hostonly_creation : Error
  bad_number bad_argument : String → Error
  bad_rank : ℕ → Error
  bad_uart_info bad_uart_mode bad_uart_type bad_uart_key : String → Error
  bad_port_irq bad_controller bad_port_count : String → Error
  no_match missing_property : String → Error
  no_guest_value : String → String → Error
  no_guest_change : Error
  already_parsed : String → String → Error
  bad_cidr : String → Error
  bad_mac : String → String → Error
  io_error : String → Error
  line_too_long no_user : Error
  no_program no_group : String → Error
  exec_failed : Failure → Error

pub data Panic : Type 0 where
  slice_out_of_range make_slice unknown_key nil_index nil_call : Panic
  error_value : Error → Panic

pub data Outcome {ℓ} (A : Type ℓ) : Type ℓ where
  ok : A → Outcome A
  err : Error → Outcome A
  panic : Panic → Outcome A

-- A call that goes on only without an error.
infixl 5 ◌>>=◌
abbrev pub ◌>>=◌ {ℓ κ} : {A : Type ℓ} {B : Type κ} → Outcome A → (A → Outcome B) → Outcome B
panic why >>= next = panic why
err why >>= next = err why
ok result >>= next = next result

infixl 5 ◌>>◌
abbrev pub ◌>>◌ {ℓ} : {B : Type ℓ} → Outcome (Unit {0}) → Outcome B → Outcome B
call >> rest = call >>= λ _. rest

-- Inversion of a successful bind.
pub >>=-eq-ok {ℓ κ} :
    {A : Type ℓ} {B : Type κ} (call : Outcome A) (next : A → Outcome B) {last : B}
    → (call >>= next) ≡ ok last
    → (result : A) × (call ≡ ok result) × (next result ≡ ok last)
>>=-eq-ok (panic why) next h = absurd (cc h)
>>=-eq-ok (err why) next h = absurd (cc h)
>>=-eq-ok (ok result) next h = (result, refl, h)

pub bind_assoc {ℓ κ μ} :
    {A : Type ℓ} {B : Type κ} {C : Type μ} (call : Outcome A) (f : A → Outcome B)
    (g : B → Outcome C)
    → (call >>= f >>= g) ≡ (call >>= λ a. f a >>= g)
bind_assoc (ok a) f g = refl
bind_assoc (err e) f g = refl
bind_assoc (panic p) f g = refl

pub bind_congr {ℓ κ} :
    {A : Type ℓ} {B : Type κ} (call : Outcome A) (f g : A → Outcome B)
    → ((a : A) → f a ≡ g a)
    → (call >>= f) ≡ (call >>= g)
bind_congr (ok a) f g h = h a
bind_congr (err e) f g h = refl
bind_congr (panic p) f g h = refl
