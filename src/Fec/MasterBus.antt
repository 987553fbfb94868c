-- ===== src/Fec/MasterBus.antt =====
-- sriov-fec/pkg/daemon/node_management.go: `enableMasterBus`, with what it uses of `strings`,
-- `strconv` and `fmt`. An int64 is a number below 2 ^ 64. The texts of the errors of
-- `strconv.ParseInt` are shortened.
pub mod Laws
use Prim.Native.Char.{Char, code}
use openshift_operator.Base.{
  ℕ, zero, suc, ◌+◌, ◌-◌, ◌*◌, ◌/◌, ◌%◌, ◌≡◌, refl, Bool, ◌&&◌, split, String, ◌<>◌, List, [], ◌∷◌,
  Option, none, some, ltb, leb, eqb, Error, failure, Exec, pure, raise, ◌>>=◌, if◌then◌else◌,
}
use openshift_operator.Fec.{Machine, exec_cmd}

-- `strings.Split(s, " = ")`
unfoldable pub split_equals : String → List String
unfolding split
split_equals s = split s " = "

-- `strings.Replace(s, "\n", "", 1)`
unfoldable pub without_newline : String → String
without_newline String.[] = ""
without_newline (String.◌∷◌ c s) =
    let rest = without_newline s in if eqb (code c) 10 then s else String.◌∷◌ c rest

hex_value : ℕ → Option ℕ
hex_value c =
    if leb 48 c && leb c 57
    then some (c - 48)
    else if leb 97 c && leb c 102
    then some (c - 87)
    else if leb 65 c && leb c 70
    then some (c - 55)
    else none

-- The value of hexadecimal digits after `v`.
hex_from : ℕ → String → Option ℕ
hex_from v String.[] = some v
hex_from v (String.◌∷◌ c s) = elim (hex_value (code c)) [
  | some d ↦ hex_from (v * 16 + d) s
  | none ↦ none
]

-- `strconv.ParseUint(s, 16, ...)` before the test of the range
unfoldable pub parse_hex : String → Option ℕ
unfolding hex_from hex_value
parse_hex String.[] = none
parse_hex s = hex_from 0 s

in_range : ℕ → Option ℕ → Option ℕ
in_range limit none = none
in_range limit (some v) = if ltb v limit then some v else none

negated : Option ℕ → Option ℕ
negated none = none
negated (some v) = some ((18446744073709551616 - v) % 18446744073709551616)

-- `strconv.ParseInt(s, 16, 16)`
unfoldable pub parse_int : String → Option ℕ
unfolding parse_hex in_range negated
parse_int String.[] = none
parse_int (String.◌∷◌ c s) =
    if eqb (code c) 43
    then in_range 32768 (parse_hex s)
    else if eqb (code c) 45
    then negated (in_range 32769 (parse_hex s))
    else in_range 32768 (parse_hex (String.◌∷◌ c s))

hex_digit : ℕ → Char
hex_digit d =
    if eqb d 0
    then "0"
    else if eqb d 1
    then "1"
    else if eqb d 2
    then "2"
    else if eqb d 3
    then "3"
    else if eqb d 4
    then "4"
    else if eqb d 5
    then "5"
    else if eqb d 6
    then "6"
    else if eqb d 7
    then "7"
    else if eqb d 8
    then "8"
    else if eqb d 9
    then "9"
    else if eqb d 10
    then "a"
    else if eqb d 11
    then "b"
    else if eqb d 12
    then "c"
    else if eqb d 13
    then "d"
    else if eqb d 14
    then "e"
    else "f"

hex_digits : ℕ → ℕ → String → String
hex_digits zero n acc = acc
hex_digits (suc fuel) n acc =
    let more = hex_digits fuel (n / 16) (String.◌∷◌ (hex_digit (n % 16)) acc) in
    if ltb n 16 then String.◌∷◌ (hex_digit n) acc else more

-- `fmt.Sprintf("%x", v)` of an int64: 16 digits are enough for a number below 2 ^ 64.
unfoldable pub format_hex : ℕ → String
unfolding hex_digits hex_digit
format_hex v =
    if ltb v 9223372036854775808
    then hex_digits 16 v ""
    else "-" <> hex_digits 16 (18446744073709551616 - v) ""

-- `v & MASTER_BUS_BIT == MASTER_BUS_BIT`
unfoldable pub has_master_bus : ℕ → Bool
has_master_bus v = eqb ((v / 4) % 2) 1

-- `v | MASTER_BUS_BIT` where the bit is not set
unfoldable pub set_master_bus : ℕ → ℕ
set_master_bus v = v + 4

module _ (M : Machine) where
  abbrev setpci : String → String → Exec M.State String
  setpci pci_addr register =
      exec_cmd M ("chroot" ∷ "/host/" ∷ "setpci" ∷ "-v" ∷ "-s" ∷ pci_addr ∷ register ∷ [])

  abbrev unexpected_form : String → String → Error
  unexpected_form pci_addr out = failure (
      "unexpected output form \"chroot /host/ setpci -v -s "
      <> (pci_addr <> (" COMMAND\": " <> out)))

  -- The code after the two values are at hand.
  unfoldable pub set_command : String → String → Exec M.State (Unit {0})
  set_command pci_addr text = elim (parse_int (without_newline text)) [
    | none ↦ raise (failure "strconv.ParseInt: invalid syntax or value out of range")
    | some v ↦
        if has_master_bus v
        then pure tt
        else (setpci pci_addr ("COMMAND=0" <> format_hex (set_master_bus v)) >>= λ _. pure tt)
  ]

  -- The code after the split of the output.
  unfoldable pub set_from : String → String → List String → Exec M.State (Unit {0})
  set_from pci_addr out (name ∷ text ∷ []) = set_command pci_addr text
  set_from pci_addr out values = raise (unexpected_form pci_addr out)

  unfoldable pub enable_master_bus : String → Exec M.State (Unit {0})
  enable_master_bus pci_addr =
      setpci pci_addr "COMMAND" >>= λ out. set_from pci_addr out (split_equals out)

split_example : split_equals "0000:01:00.0 @04 = 0102" ≡ "0000:01:00.0 @04" ∷ "0102" ∷ []
unfolding split_equals
split_example = refl

parse_example : parse_int "0102" ≡ some 258
unfolding parse_int in_range parse_hex hex_from hex_value
parse_example = refl

format_example : format_hex 262 ≡ "106"
unfolding format_hex hex_digits hex_digit
format_example = refl
