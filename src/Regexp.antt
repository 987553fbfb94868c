-- ===== src/Regexp.antt =====
-- The regular expressions that the program uses, of Go's `regexp`: a sequence of character classes,
-- each once or repeated, with groups of them that are captured. A match is the one that a
-- backtracking search finds first, as in Go.
pub mod Laws
use Prim.Native.Char.{Char, code}
use openshift_operator.Base.{
  ℕ, Bool, not, ◌&&◌, ◌||◌, String, ◌<>◌, List, [], ◌∷◌, Option, none, some, leb, eqb, ◌≡◌, refl,
  if◌then◌else◌, or_else,
}

pub data Repeat : Type 0 where
  once : Repeat
  -- `*`, `+` and `+?`
  star plus plus_lazy : Repeat

pub record Piece : Type 0 where
  pub class : ℕ → Bool
  pub repeat : Repeat
  -- The number of its group, or 0.
  pub group : ℕ

-- The texts of the pieces, in order.
abbrev pub Found : Type 0
Found = Option (List String)

unfoldable pub begin_piece : Found → Found
begin_piece none = none
begin_piece (some ts) = some ("" ∷ ts)

-- One more character in the first text.
unfoldable pub extend : Char → Found → Found
extend c none = none
extend c (some []) = some (String.◌∷◌ c "" ∷ [])
extend c (some (t ∷ ts)) = some (String.◌∷◌ c t ∷ ts)

-- A class any number of times, the most first; `k` matches what follows.
unfoldable pub greedy : (ℕ → Bool) → (String → Found) → String → Found
greedy class k String.[] = begin_piece (k "")
greedy class k (String.◌∷◌ c s) =
    let more = extend c (greedy class k s) in
    let stop = begin_piece (k (String.◌∷◌ c s)) in
    if class (code c) then or_else more stop else stop

-- The same, the fewest first.
unfoldable pub lazy : (ℕ → Bool) → (String → Found) → String → Found
lazy class k String.[] = begin_piece (k "")
lazy class k (String.◌∷◌ c s) =
    let more = extend c (lazy class k s) in
    let stop = begin_piece (k (String.◌∷◌ c s)) in
    if class (code c) then or_else stop more else stop

-- A class once, and then `k`, which has begun a piece.
unfoldable pub after_one : (ℕ → Bool) → (String → Found) → String → Found
after_one class k String.[] = none
after_one class k (String.◌∷◌ c s) = if class (code c) then extend c (k s) else none

unfoldable pub match_repeat : Repeat → (ℕ → Bool) → (String → Found) → String → Found
match_repeat once class k s = after_one class (λ r. begin_piece (k r)) s
match_repeat star class k s = greedy class k s
match_repeat plus class k s = after_one class (greedy class k) s
match_repeat plus_lazy class k s = after_one class (lazy class k) s

-- The pieces against the whole of a text, `^…$`.
unfoldable pub match_all : List Piece → String → Found
match_all [] String.[] = some []
match_all [] (String.◌∷◌ c s) = none
match_all (p ∷ ps) s = match_repeat p.repeat p.class (match_all ps) s

-- The text of a group.
unfoldable pub group_text : ℕ → List Piece → List String → String
group_text g [] ts = ""
group_text g (p ∷ ps) [] = ""
group_text g (p ∷ ps) (t ∷ ts) =
    let rest = group_text g ps ts in if eqb p.group g then t <> rest else rest

-- `FindStringSubmatch` of `^…$` with two groups, where the match has three texts
unfoldable pub submatches2 : List Piece → String → Option (String × String)
submatches2 ps s = elim (match_all ps s) [
  | none ↦ none
  | some ts ↦ some (group_text 1 ps ts, group_text 2 ps ts)
]

-- The pieces against the beginning of a text.
unfoldable pub match_prefix : List Piece → String → Found
match_prefix [] s = some []
match_prefix (p ∷ ps) s = match_repeat p.repeat p.class (match_prefix ps) s

abbrev pub joined : List String → String
joined [] = ""
joined (t ∷ ts) = t <> joined ts

-- `FindString` of an expression that is not anchored: the match that begins first.
unfoldable pub find_first : List Piece → String → Option String
find_first ps String.[] = elim (match_prefix ps "") [ none ↦ none | some ts ↦ some (joined ts) ]
find_first ps (String.◌∷◌ c s) =
    let rest = find_first ps s in
    elim (match_prefix ps (String.◌∷◌ c s)) [ none ↦ rest | some ts ↦ some (joined ts) ]

abbrev pub piece : (ℕ → Bool) → Repeat → ℕ → Piece
piece class repeat group = record { class = class; repeat = repeat; group = group }

-- Classes: `\s`, `.`, one character, a range, and `[a-f0-9]`
abbrev pub is_space : ℕ → Bool
is_space c = eqb c 32 || (eqb c 9 || (eqb c 10 || (eqb c 12 || eqb c 13)))

abbrev pub is_any : ℕ → Bool
is_any c = not (eqb c 10)

abbrev pub is_char : ℕ → ℕ → Bool
is_char a c = eqb c a

abbrev pub in_range : ℕ → ℕ → ℕ → Bool
in_range a b c = leb a c && leb c b

abbrev pub is_digit : ℕ → Bool
is_digit = in_range b'0' b'9'

abbrev pub is_lower : ℕ → Bool
is_lower = in_range b'a' b'z'

abbrev pub is_lower_hex : ℕ → Bool
is_lower_hex c = in_range b'a' b'f' c || is_digit c

-- `[a-zA-Z .:]`
abbrev pub is_label : ℕ → Bool
is_label c = (is_lower c || in_range b'A' b'Z' c) || (eqb c b' ' || (eqb c b'.' || eqb c b':'))

-- `^([a-zA-Z .:]+?)(?:\s*:\s)(.+)$`, the expression for the lines of `fpgainfo bmc` in both the
-- daemon and the exporter
abbrev pub label_line : List Piece
label_line =
    piece is_label plus_lazy 1
    ∷ piece is_space star 0
    ∷ piece (is_char b':') once 0
    ∷ piece is_space once 0
    ∷ piece is_any plus 2
    ∷ []

label_example :
    submatches2 label_line "PCIe s:b:d.f                    : 0000:1b:00.0"
    ≡ some ("PCIe s:b:d.f", "0000:1b:00.0")
unfolding submatches2 match_all match_repeat after_one greedy lazy extend begin_piece group_text
label_example = refl

label_none : submatches2 label_line "Board Management Controller" ≡ none
unfolding submatches2 match_all match_repeat after_one greedy lazy extend begin_piece group_text
label_none = refl
