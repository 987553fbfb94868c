-- ===== src/Base/Split.antt =====
-- `strings.Split`, `strings.Replace` of one character and the letters of either case, on the native
-- texts.
use Prim.Native.Nat.{ℕ, zero, suc, ◌-◌}
use Prim.Native.Char.{Char, code}
use Prim.Native.String.{String, count, ◌++◌ as ◌<>◌}
use mathlib.Core.Bool.{Bool, true, false}
use mathlib.Core.List.{List, [], ◌∷◌}
use mathlib.Core.Path.{◌≡◌, refl}
use openshift_operator.Base.Tests.{eqb, if◌then◌else◌}

has_prefix_from : String → String → Bool
has_prefix_from String.[] s = true
has_prefix_from (String.◌∷◌ c p) String.[] = false
has_prefix_from (String.◌∷◌ c p) (String.◌∷◌ d s) =
    let rest = has_prefix_from p s in if eqb (code c) (code d) then rest else false

-- `strings.HasPrefix(s, p)`
unfoldable pub has_prefix : String → String → Bool
unfolding has_prefix_from
has_prefix s p = has_prefix_from p s

-- The pieces of a text between the separators: `skip` characters are still of the last separator,
-- and `piece` is what was read of the piece at hand.
split_from : String → ℕ → ℕ → String → String → List String
split_from sep len skip String.[] piece = piece ∷ []
split_from sep len (suc skip) (String.◌∷◌ c s) piece = split_from sep len skip s piece
split_from sep len zero (String.◌∷◌ c s) piece = elim (has_prefix_from sep (String.◌∷◌ c s)) [
  | true ↦ piece ∷ split_from sep len (len - 1) s ""
  | false ↦ split_from sep len 0 s (piece <> String.◌∷◌ c "")
]

-- `strings.Split(s, sep)`, of a separator that is not empty
unfoldable pub split : String → String → List String
unfolding split_from has_prefix_from
split s sep = split_from sep (count sep) 0 s ""

-- `strings.Replace(s, a, b, -1)` of the text `a` of one character
unfoldable pub replace_char : ℕ → String → String → String
replace_char a b String.[] = ""
replace_char a b (String.◌∷◌ c s) =
    let rest = replace_char a b s in if eqb (code c) a then b <> rest else String.◌∷◌ c rest

-- The letters of ASCII, each with its capital.
letters : List (Char × Char)
letters =
    ("a", "A")
    ∷ ("b", "B")
    ∷ ("c", "C")
    ∷ ("d", "D")
    ∷ ("e", "E")
    ∷ ("f", "F")
    ∷ ("g", "G")
    ∷ ("h", "H")
    ∷ ("i", "I")
    ∷ ("j", "J")
    ∷ ("k", "K")
    ∷ ("l", "L")
    ∷ ("m", "M")
    ∷ ("n", "N")
    ∷ ("o", "O")
    ∷ ("p", "P")
    ∷ ("q", "Q")
    ∷ ("r", "R")
    ∷ ("s", "S")
    ∷ ("t", "T")
    ∷ ("u", "U")
    ∷ ("v", "V")
    ∷ ("w", "W")
    ∷ ("x", "X")
    ∷ ("y", "Y")
    ∷ ("z", "Z")
    ∷ []

upper_in : List (Char × Char) → Char → Char
upper_in [] c = c
upper_in ((a, b) ∷ ls) c = if eqb (code a) (code c) then b else upper_in ls c

lower_in : List (Char × Char) → Char → Char
lower_in [] c = c
lower_in ((a, b) ∷ ls) c = if eqb (code b) (code c) then a else lower_in ls c

-- `strings.ToUpper(s)` and `strings.ToLower(s)` of a text of ASCII
unfoldable pub to_upper : String → String
unfolding upper_in letters
to_upper String.[] = ""
to_upper (String.◌∷◌ c s) = String.◌∷◌ (upper_in letters c) (to_upper s)

unfoldable pub to_lower : String → String
unfolding lower_in letters
to_lower String.[] = ""
to_lower (String.◌∷◌ c s) = String.◌∷◌ (lower_in letters c) (to_lower s)

split_example : split "0000:01:00.0 @04 = 0102" " = " ≡ "0000:01:00.0 @04" ∷ "0102" ∷ []
unfolding split
split_example = refl

split_ends : split "a\n\nb\n" "\n" ≡ "a" ∷ "" ∷ "b" ∷ "" ∷ []
unfolding split
split_ends = refl

upper_example : to_upper (replace_char b':' "" "68:05:ca") ≡ "6805CA"
unfolding to_upper replace_char
upper_example = refl
