-- ===== src/Fec/MasterBus/Laws.antt =====
-- The value that `enableMasterBus` writes, in hexadecimal digits.
use Prim.Native.Char.{code}
use openshift_operator.Base.{
  ℕ, zero, suc, ◌+◌, ◌*◌, ◌/◌, ◌%◌, ◌<◌, ◌≡◌, refl, ap, ◌∙◌, arith, Bool, true, false, String, ◌<>◌,
  [], ◌∷◌, Option, none, some, eqb, ltb, holds_below, holds_below-lt, Bool-cases, inl, inr, pure,
  ◌>>=◌,
}
use openshift_operator.Fec.{Machine, exec_cmd}
use openshift_operator.Fec.MasterBus.{
  hex_value, hex_from, parse_hex, hex_digit, hex_digits, format_hex, without_newline, parse_int,
  has_master_bus, set_master_bus, set_command,
}

-- Whether a digit is read back.
reads_back : ℕ → Bool
reads_back d = elim (hex_value (code (hex_digit d))) [ none ↦ false | some e ↦ eqb e d ]

all_read_back : holds_below 16 reads_back ≡ true
unfolding holds_below reads_back hex_value hex_digit
all_read_back = refl

hex_value-hex_digit : (d : ℕ) → d < 16 → hex_value (code (hex_digit d)) ≡ some d
unfolding reads_back
hex_value-hex_digit d lt =
    by_value (hex_value (code (hex_digit d))) refl (holds_below-lt 16 reads_back d all_read_back lt)
  where
    by_value :
        (o : Option ℕ)
        → hex_value (code (hex_digit d)) ≡ o
        → reads_back d ≡ true
        → hex_value (code (hex_digit d)) ≡ some d
    by_value none e h = absurd (ground (arith, e, h))
    by_value (some x) e h = ground (arith, e, h)

hex_from-digit :
    (d v : ℕ) (acc : String)
    → d < 16
    → hex_from v (String.◌∷◌ (hex_digit d) acc) ≡ hex_from (v * 16 + d) acc
unfolding hex_from
hex_from-digit d v acc lt = ground (arith, hex_value-hex_digit d lt)

-- The numbers of at most so many digits are below it.
cap : ℕ → ℕ
cap zero = 1
cap (suc k) = 16 * cap k

hex_from-hex_digits :
    (fuel n : ℕ) (acc : String) → n < cap fuel → hex_from 0 (hex_digits fuel n acc) ≡ hex_from n acc
unfolding hex_digits cap
hex_from-hex_digits zero n acc lt = ap (λ (k : ℕ). hex_from k acc) (omega (arith, lt))
hex_from-hex_digits (suc fuel) n acc lt = elim (Bool-cases (ltb n 16)) [
  | inl small ↦
      rw (small, hex_from-digit n 0 acc (ground arith))
        (ap (λ (k : ℕ). hex_from k acc) (omega arith))
  | inr large ↦ rw large (
      hex_from-hex_digits fuel (n / 16) (String.◌∷◌ (hex_digit (n % 16)) acc) (omega (arith, lt))
      ∙ hex_from-digit (n % 16) (n / 16) acc (omega arith)
      ∙ ap (λ (k : ℕ). hex_from k acc) (omega arith))
]

is_cons : String → Bool
is_cons String.[] = false
is_cons (String.◌∷◌ c s) = true

hex_digits-cons :
    (fuel n : ℕ) (acc : String) → is_cons acc ≡ true → is_cons (hex_digits fuel n acc) ≡ true
unfolding hex_digits is_cons
hex_digits-cons zero n acc h = h
hex_digits-cons (suc fuel) n acc h = elim (Bool-cases (ltb n 16)) [
  | inl small ↦ rw small refl
  | inr large ↦ rw large (hex_digits-cons fuel (n / 16) (String.◌∷◌ (hex_digit (n % 16)) acc) refl)
]

hex_digits-some : (fuel n : ℕ) → is_cons (hex_digits (suc fuel) n "") ≡ true
unfolding hex_digits is_cons
hex_digits-some fuel n = elim (Bool-cases (ltb n 16)) [
  | inl small ↦ rw small refl
  | inr large ↦ rw large (hex_digits-cons fuel (n / 16) (String.◌∷◌ (hex_digit (n % 16)) "") refl)
]

parse_hex-cons : (s : String) → is_cons s ≡ true → parse_hex s ≡ hex_from 0 s
unfolding parse_hex is_cons
parse_hex-cons String.[] h = absurd (ground (arith, h))
parse_hex-cons (String.◌∷◌ c s) h = refl

-- A number below 2 ^ 63 is read back from its digits.
pub parse_hex-format_hex : (v : ℕ) → v < 9223372036854775808 → parse_hex (format_hex v) ≡ some v
unfolding format_hex cap hex_from
parse_hex-format_hex v lt =
    let small : ltb v 9223372036854775808 ≡ true = ground (arith, lt) in
    rw small (
      parse_hex-cons (hex_digits 16 v "") (hex_digits-some 15 v)
      ∙ hex_from-hex_digits 16 v "" (omega (arith, lt)))

-- Where the text of the register is that of a number below 2 ^ 15 without the bit of the master bus,
-- the register is written once: what is written has the digits of a number with this bit, whose
-- other bits are those that were read.
pub set_command_lem :
    (M : Machine) (pci_addr text : String) (v : ℕ)
    → parse_int (without_newline text) ≡ some v
    → v < 32768
    → has_master_bus v ≡ false
    → (h : String) × (w : ℕ) × (set_command M pci_addr text ≡ (
        exec_cmd M
          ("chroot" ∷ "/host/" ∷ "setpci" ∷ "-v" ∷ "-s" ∷ pci_addr ∷ ("COMMAND=0" <> h) ∷ [])
        >>= λ _. pure tt))
      × (parse_hex h ≡ some w)
      × (has_master_bus w ≡ true)
      × (w % 4 ≡ v % 4)
      × (w / 8 ≡ v / 8)
unfolding set_command set_master_bus has_master_bus
set_command_lem M pci_addr text v parsed lt unset = (
  format_hex (set_master_bus v),
  set_master_bus v,
  rw (set_command, parsed, unset) refl,
  parse_hex-format_hex (set_master_bus v) (omega (arith, lt)),
  ground (arith, unset),
  ground (arith, unset),
  ground (arith, unset),
)
