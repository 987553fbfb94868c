-- ===== src/Base/Integers.antt =====
-- Integers over the native numbers, and `strconv.Atoi` with its error left out.
use Prim.Native.Nat.{ℕ, zero, suc, ◌+◌, ◌-◌, ◌*◌, ◌%◌}
use Prim.Native.Char.{code}
use Prim.Native.String.{String}
use mathlib.Core.Bool.{Bool, true, false, ◌&&◌}
use mathlib.Core.Option.{Option, none, some}
use mathlib.Core.Path.{◌≡◌, refl}
use openshift_operator.Base.Tests.{leb, ltb, eqb, if◌then◌else◌}

pub data ℤ : Type 0 where
  pos : ℕ → ℤ
  negsuc : ℕ → ℤ

-- `-n`
abbrev pub neg : ℕ → ℤ
neg zero = pos 0
neg (suc n) = negsuc n

-- The value of decimal digits after `v`.
digits_from : ℕ → String → Option ℕ
digits_from v String.[] = some v
digits_from v (String.◌∷◌ c s) =
    let rest = digits_from (v * 10 + (code c - 48)) s in
    if leb 48 (code c) && leb (code c) 57 then rest else none

-- Of digits, at least one.
unfoldable pub parse_digits : String → Option ℕ
unfolding digits_from
parse_digits String.[] = none
parse_digits s = digits_from 0 s

abbrev pub max_int64 : ℕ
max_int64 = 9223372036854775807

-- What `strconv.ParseInt(s, 10, 64)` parses: an optional sign and digits; `none` where the text is
-- not such a number, and the number before the test of its range.
unfoldable pub parse_signed : String → Option ℤ
unfolding parse_digits
parse_signed String.[] = none
parse_signed (String.◌∷◌ c s) =
    if eqb (code c) 45
    then elim (parse_digits s) [ none ↦ none | some n ↦ some (neg n) ]
    else if eqb (code c) 43
    then elim (parse_digits s) [ none ↦ none | some n ↦ some (pos n) ]
    else elim (parse_digits (String.◌∷◌ c s)) [ none ↦ none | some n ↦ some (pos n) ]

-- Whether an int64 has the value.
abbrev pub is_int64 : ℤ → Bool
is_int64 (pos n) = leb n max_int64
is_int64 (negsuc n) = leb n max_int64

clamped : ℤ → ℤ
clamped (pos n) = if leb n max_int64 then pos n else pos max_int64
clamped (negsuc n) = if leb n max_int64 then negsuc n else negsuc max_int64

-- `n, _ = strconv.Atoi(s)`: 0 where the text is no number, and the nearest int where it is too large.
unfoldable pub atoi_ignoring : String → ℤ
unfolding parse_signed clamped
atoi_ignoring s = elim (parse_signed s) [ none ↦ pos 0 | some z ↦ clamped z ]

atoi_minus : atoi_ignoring "-1" ≡ negsuc 0
unfolding atoi_ignoring
atoi_minus = refl

-- What a 64-bit integer of Go holds for the value of a product: two's complement, with
-- wrap-around.
unfoldable pub wrap_int64 : ℤ → ℤ
wrap_int64 (pos n) =
    let r = n % 18446744073709551616 in
    if leb r max_int64 then pos r else negsuc (18446744073709551615 - r)
wrap_int64 (negsuc n) =
    let r = n % 18446744073709551616 in
    if leb r max_int64 then negsuc r else pos (18446744073709551615 - r)

-- `z * k`, for a number that is not negative.
infixl 7 ◌*ℤ◌
unfoldable pub ◌*ℤ◌ : ℤ → ℕ → ℤ
pos n *ℤ k = pos (n * k)
negsuc n *ℤ k = neg (suc n * k)

-- `y < z`
unfoldable pub ltz : ℤ → ℤ → Bool
ltz (pos m) (pos n) = ltb m n
ltz (pos m) (negsuc n) = false
ltz (negsuc m) (pos n) = true
ltz (negsuc m) (negsuc n) = ltb n m
