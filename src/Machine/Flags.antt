-- ===== src/Machine/Flags.antt =====
-- machine.go: the flags of a machine.
use go_virtualbox.Prelude.{
  ℕ, zero, suc, ◌+◌, ◌*◌, ◌^◌, ◌/◌, ◌%◌, ◌<◌, String, Bool, true, false, nat_eq, if◌then◌else◌, ◌≡◌,
  refl, arith, sym, ◌∙◌, ap, Bool-cases, inl, inr,
}
use go_virtualbox.Machine.Kinds.{Flag}

abbrev pub acpi : Flag
acpi = 1

abbrev pub ioapic : Flag
ioapic = 2

abbrev pub rtcuseutc : Flag
rtcuseutc = 4

abbrev pub cpuhotplug : Flag
cpuhotplug = 8

abbrev pub pae : Flag
pae = 16

abbrev pub longmode : Flag
longmode = 32

abbrev pub synthcpu : Flag
synthcpu = 64

abbrev pub hpet : Flag
hpet = 128

abbrev pub hwvirtex : Flag
hwvirtex = 256

abbrev pub triplefaultreset : Flag
triplefaultreset = 512

abbrev pub nestedpaging : Flag
nestedpaging = 1024

abbrev pub largepages : Flag
largepages = 2048

abbrev pub vtxvpid : Flag
vtxvpid = 4096

abbrev pub vtxux : Flag
vtxux = 8192

abbrev pub accelerate3d : Flag
accelerate3d = 16384

abbrev pub nested_hw_virt : Flag
nested_hw_virt = 32768

abbrev pub x2apic : Flag
x2apic = 65536

unfoldable pub bool2string : Bool → String
bool2string true = "on"
bool2string false = "off"

-- a & b, on numbers of `w` bits
unfoldable pub bit_and : ℕ → ℕ → ℕ → ℕ
bit_and zero a b = 0
bit_and (suc w) a b = (a % 2) * (b % 2) + 2 * bit_and w (a / 2) (b / 2)

-- A flag is a non-negative `int` of 64 bits.
unfoldable pub get : Flag → Flag → String
unfolding bool2string bit_and
get f o = bool2string (nat_eq (bit_and 63 f o) o)

-- the bit with a number
abbrev pub has_bit : ℕ → ℕ → Bool
has_bit zero f = nat_eq (f % 2) 1
has_bit (suc i) f = has_bit i (f / 2)

bit_and-zero : (w f : ℕ) → bit_and w f 0 ≡ 0
unfolding bit_and
bit_and-zero zero f = refl
bit_and-zero (suc w) f = let rest = bit_and-zero w (f / 2) in omega arith

half_double : (b : ℕ) → (2 * b) / 2 ≡ b
half_double b = omega arith

double_even : (b : ℕ) → (2 * b) % 2 ≡ 0
double_even b = omega arith

bit_and-double : (w f b : ℕ) → bit_and (suc w) f (2 * b) ≡ 2 * bit_and w (f / 2) b
unfolding bit_and
bit_and-double w f b = rw (double_even b, half_double b) (omega arith)

low_bit : (r rest : ℕ) → r < 2 → rest ≡ 0 → r * 1 + 2 * rest ≡ (if nat_eq r 1 then 1 else 0)
low_bit r rest h e = ground arith

power_double : (i : ℕ) → 2 ^ suc i ≡ 2 * 2 ^ i
power_double i = omega arith

-- one bit of the other number is left
bit_and-power : (w i f : ℕ) → i < w → bit_and w f (2 ^ i) ≡ (if has_bit i f then 2 ^ i else 0)
unfolding bit_and
bit_and-power zero i f h = omega arith
bit_and-power (suc w) zero f h =
    low_bit (f % 2) (bit_and w (f / 2) 0) (omega arith) (bit_and-zero w (f / 2))
bit_and-power (suc w) (suc i) f h =
    let rest = bit_and-power w i (f / 2) (omega arith) in
    ap (bit_and (suc w) f) (power_double i)
    ∙ bit_and-double w f (2 ^ i)
    ∙ ap (λ x. 2 * x) rest
    ∙ elim (Bool-cases (has_bit i (f / 2))) [
      | inl set ↦ rw set (sym (power_double i))
      | inr unset ↦ rw unset refl
    ]

power-positive : (i : ℕ) → 0 < 2 ^ i
power-positive zero = omega arith
power-positive (suc i) = let p = power-positive i in omega arith

-- `Get` of the flag with one bit, `1 << i`, is `on` when that bit is set and `off` otherwise.
pub get-has_bit : (f i : ℕ) → i < 63 → get f (2 ^ i) ≡ bool2string (has_bit i f)
unfolding get
get-has_bit f i h =
    let p = power-positive i in
    let masked = bit_and-power 63 i f h in
    elim (Bool-cases (has_bit i f)) [
      | inl set ↦
          ap (λ b. bool2string b)
            (ap (λ x. nat_eq x (2 ^ i)) masked ∙ rw set (ground arith) ∙ sym set)
      | inr unset ↦
          ap (λ b. bool2string b)
            (ap (λ x. nat_eq x (2 ^ i)) masked ∙ rw unset (ground arith) ∙ sym unset)
    ]
