-- ===== src/Base/Text.antt =====
-- What the program uses of Go's `strings`, `strconv` and `fmt`, over the native texts.
use Prim.Native.Nat.{ℕ, zero, suc, ◌+◌, ◌-◌, ◌*◌, ◌/◌, ◌%◌, ◌<◌}
use Prim.Native.Char.{Char, code}
use Prim.Native.String.{String}
use mathlib.Core.Path.{◌≡◌, refl, ap, ◌∙◌}
use mathlib.Core.Logic.{inl, inr}
use native.Mathlib.Omega.{arith}
use mathlib.Core.Bool.{Bool, true, false}
use mathlib.Core.Option.{Option, none, some}
use text.Mathlib.Text.{find?}
use openshift_operator.Base.Tests.{ltb, eqb, Bool-cases, if◌then◌else◌}

abbrev pub is_some {ℓ} : {A : Type ℓ} → Option A → Bool
is_some none = false
is_some (some a) = true

-- `strings.Contains(s, t)`
abbrev pub str_contains : String → String → Bool
str_contains s t = is_some (find? s t)

digit : ℕ → Char
digit d =
    if eqb d 0
    then "0"
    else if eqb d 1
    then "1"
    else if eqb d 2
    then "2"
    else if eqb d 3
    then "3"
    else if eqb d 4
    then "4"
    else if eqb d 5
    then "5"
    else if eqb d 6
    then "6"
    else if eqb d 7
    then "7"
    else if eqb d 8
    then "8"
    else "9"

itoa_from : ℕ → ℕ → String → String
itoa_from zero n acc = acc
itoa_from (suc fuel) n acc =
    let more = itoa_from fuel (n / 10) (String.◌∷◌ (digit (n % 10)) acc) in
    if ltb n 10 then String.◌∷◌ (digit n) acc else more

-- `strconv.Itoa(n)` of a number that is not negative: a number has no more digits than its value
-- and one.
unfoldable pub itoa : ℕ → String
unfolding itoa_from digit
itoa n = itoa_from (suc n) n ""

-- The number that a text of digits shows, after the digits of `v`.
atoi_from : ℕ → String → ℕ
atoi_from v String.[] = v
atoi_from v (String.◌∷◌ c s) = atoi_from (v * 10 + (code c - 48)) s

unfoldable pub atoi : String → ℕ
unfolding atoi_from
atoi s = atoi_from 0 s

-- A test that every number below a bound passes.
unfoldable pub holds_below : ℕ → (ℕ → Bool) → Bool
holds_below zero test = true
holds_below (suc n) test = if test n then holds_below n test else false

pub holds_below-lt :
    (n : ℕ) (test : ℕ → Bool) (x : ℕ) → holds_below n test ≡ true → x < n → test x ≡ true
unfolding holds_below
holds_below-lt zero test x h lt = absurd (omega arith)
holds_below-lt (suc n) test x h lt = ground (arith, holds_below-lt n test x)

digit_codes : holds_below 10 (λ d. eqb (code (digit d)) (48 + d)) ≡ true
unfolding holds_below digit
digit_codes = refl

eq_of_eqb : (a b : ℕ) → eqb a b ≡ true → a ≡ b
eq_of_eqb a b h = ground arith

code-digit : (d : ℕ) → d < 10 → code (digit d) ≡ 48 + d
code-digit d h =
    eq_of_eqb _ _ (holds_below-lt 10 (λ d. eqb (code (digit d)) (48 + d)) d digit_codes h)

atoi_from-digit :
    (d v : ℕ) (acc : String)
    → d < 10
    → atoi_from v (String.◌∷◌ (digit d) acc) ≡ atoi_from (v * 10 + d) acc
unfolding atoi_from
atoi_from-digit d v acc h = ap (λ (k : ℕ). atoi_from k acc) (omega (arith, code-digit d h))

atoi_from-itoa_from :
    (fuel n : ℕ) (acc : String) → n < fuel → atoi_from 0 (itoa_from fuel n acc) ≡ atoi_from n acc
unfolding itoa_from
atoi_from-itoa_from zero n acc h = absurd (omega arith)
atoi_from-itoa_from (suc fuel) n acc h = elim (Bool-cases (ltb n 10)) [
  | inl small ↦
      rw (small, atoi_from-digit n 0 acc (ground arith))
        (ap (λ (k : ℕ). atoi_from k acc) (omega arith))
  | inr large ↦ rw large (
      atoi_from-itoa_from fuel (n / 10) (String.◌∷◌ (digit (n % 10)) acc) (ground arith)
      ∙ atoi_from-digit (n % 10) (n / 10) acc (omega arith)
      ∙ ap (λ (k : ℕ). atoi_from k acc) (omega arith))
]

-- A number is read back from its digits.
pub atoi-itoa : (n : ℕ) → atoi (itoa n) ≡ n
unfolding atoi itoa
atoi-itoa n = atoi_from-itoa_from (suc n) n "" (omega arith)

itoa_1024 : itoa 1024 ≡ "1024"
unfolding itoa
itoa_1024 = refl
