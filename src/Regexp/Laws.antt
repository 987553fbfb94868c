-- ===== src/Regexp/Laws.antt =====
-- What a match is, and how the search is related to it.
use Prim.Native.Char.{Char, code}
use text.Mathlib.TextLemmas.{nil-append, cons-append}
use mathlib.Core.Path.{subst}
use openshift_operator.Base.{
  ℕ, Bool, true, String, ◌<>◌, List, [], ◌∷◌, none, some, is_some, arith, ◌≡◌, refl, sym, ap, ◌∙◌,
  ◌⊎◌, inl, inr, or_else, Bool-cases,
}
use openshift_operator.Regexp.{
  Repeat, once, star, plus, plus_lazy, Piece, Found, begin_piece, extend, greedy, lazy, after_one,
  match_repeat, match_all, joined,
}

-- Every character of a text is of a class.
unfoldable pub AllOf : (ℕ → Bool) → String → Type 0
AllOf class String.[] = Unit {0}
AllOf class (String.◌∷◌ c s) = (class (code c) ≡ true) × AllOf class s

unfoldable pub IsOne : (ℕ → Bool) → String → Type 0
IsOne class String.[] = ⊥
IsOne class (String.◌∷◌ c s) = (class (code c) ≡ true) × (s ≡ "")

unfoldable pub IsSome : (ℕ → Bool) → String → Type 0
IsSome class String.[] = ⊥
IsSome class (String.◌∷◌ c s) = (class (code c) ≡ true) × AllOf class s

-- A text that a piece stands for.
unfoldable pub Fits : Repeat → (ℕ → Bool) → String → Type 0
Fits once = IsOne
Fits star = AllOf
Fits plus = IsSome
Fits plus_lazy = IsSome

unfoldable pub AllFit : List Piece → List String → Type 0
AllFit [] [] = Unit {0}
AllFit [] (t ∷ ts) = ⊥
AllFit (p ∷ ps) [] = ⊥
AllFit (p ∷ ps) (t ∷ ts) = Fits p.repeat p.class t × AllFit ps ts

-- What `k` finds are texts with property `P` that make up its text.
abbrev Sound : (List String → Type 0) → (String → Found) → Type 0
Sound P k = (s : String) (ts : List String) → k s ≡ some ts → P ts × (joined ts ≡ s)

-- A first text with property `Q`, and others with `P`.
Begun : (String → Type 0) → (List String → Type 0) → List String → Type 0
Begun Q P [] = ⊥
Begun Q P (t ∷ ts) = Q t × P ts

module _ (P : List String → Type 0) where
  begun :
      (Q : String → Type 0) (s : String) (f : Found)
      → Q ""
      → ((ts : List String) → f ≡ some ts → P ts × (joined ts ≡ s))
      → (ts : List String) → begin_piece f ≡ some ts
      → Begun Q P ts × (joined ts ≡ s)
  unfolding begin_piece Begun
  begun Q s none q h ts e = absurd (ground (arith, e))
  begun Q s (some us) q h [] e = absurd (ground (arith, e))
  begun Q s (some us) q h (t ∷ ts) e =
      let (p, j) = h us refl in
      let first : t ≡ "" = ground (arith, e) in
      let others : us ≡ ts = ground (arith, e) in
      ((subst Q (sym first) q, subst P others p), rw (first, ← others) (nil-append (joined us) ∙ j))

  extended :
      (Q R : String → Type 0) (c : Char) (s : String) (f : Found)
      → ((t : String) → Q t → R (String.◌∷◌ c t))
      → ((ts : List String) → f ≡ some ts → Begun Q P ts × (joined ts ≡ s))
      → (ts : List String) → extend c f ≡ some ts
      → Begun R P ts × (joined ts ≡ String.◌∷◌ c s)
  unfolding extend Begun
  extended Q R c s none qr h ts e = absurd (ground (arith, e))
  extended Q R c s (some []) qr h ts e = absurd ((h [] refl).0)
  extended Q R c s (some (u ∷ us)) qr h [] e = absurd (ground (arith, e))
  extended Q R c s (some (u ∷ us)) qr h (t ∷ ts) e =
      let ((q, p), j) = h (u ∷ us) refl in
      let first : t ≡ String.◌∷◌ c u = ground (arith, e) in
      let others : us ≡ ts = ground (arith, e) in
      (
        (subst R (sym first) (qr u q), subst P others p),
        rw (first, ← others) (cons-append c u (joined us) ∙ ap (λ (r : String). String.◌∷◌ c r) j),
      )

  chosen :
      (Q : List String → Type 0) (s : String) (f g : Found)
      → ((ts : List String) → f ≡ some ts → Q ts × (joined ts ≡ s))
      → ((ts : List String) → g ≡ some ts → Q ts × (joined ts ≡ s))
      → (ts : List String) → or_else f g ≡ some ts
      → Q ts × (joined ts ≡ s)
  chosen Q s none g hf hg = hg
  chosen Q s (some us) g hf hg = hf

  greedy-Sound :
      (class : ℕ → Bool) (k : String → Found)
      → Sound P k
      → Sound (Begun (AllOf class) P) (greedy class k)
  unfolding greedy AllOf
  greedy-Sound class k h String.[] ts e = begun (AllOf class) "" (k "") tt (h "") ts e
  greedy-Sound class k h (String.◌∷◌ c s) ts e =
      let stop =
        begun (AllOf class) (String.◌∷◌ c s) (k (String.◌∷◌ c s)) tt (h (String.◌∷◌ c s)) in
      let more = λ (y : class (code c) ≡ true).
        extended (AllOf class) (AllOf class) c s (greedy class k s) (λ t q. (y, q))
          (greedy-Sound class k h s) in
      elim (Bool-cases (class (code c))) [
        | inl y ↦
            chosen (Begun (AllOf class) P) (String.◌∷◌ c s) (extend c (greedy class k s))
              (begin_piece (k (String.◌∷◌ c s))) (more y) stop ts (ground (arith, y, e))
        | inr n ↦ stop ts (ground (arith, n, e))
      ]

  lazy-Sound :
      (class : ℕ → Bool) (k : String → Found)
      → Sound P k
      → Sound (Begun (AllOf class) P) (lazy class k)
  unfolding lazy AllOf
  lazy-Sound class k h String.[] ts e = begun (AllOf class) "" (k "") tt (h "") ts e
  lazy-Sound class k h (String.◌∷◌ c s) ts e =
      let stop =
        begun (AllOf class) (String.◌∷◌ c s) (k (String.◌∷◌ c s)) tt (h (String.◌∷◌ c s)) in
      let more = λ (y : class (code c) ≡ true).
        extended (AllOf class) (AllOf class) c s (lazy class k s) (λ t q. (y, q))
          (lazy-Sound class k h s) in
      elim (Bool-cases (class (code c))) [
        | inl y ↦
            chosen (Begun (AllOf class) P) (String.◌∷◌ c s) (begin_piece (k (String.◌∷◌ c s)))
              (extend c (lazy class k s)) stop (more y) ts (ground (arith, y, e))
        | inr n ↦ stop ts (ground (arith, n, e))
      ]

  after_one-Sound :
      (Q R : String → Type 0) (class : ℕ → Bool) (k : String → Found)
      → ((c : Char) (t : String) → class (code c) ≡ true → Q t → R (String.◌∷◌ c t))
      → Sound (Begun Q P) k
      → Sound (Begun R P) (after_one class k)
  unfolding after_one
  after_one-Sound Q R class k qr h String.[] ts e = absurd (ground (arith, e))
  after_one-Sound Q R class k qr h (String.◌∷◌ c s) ts e = elim (Bool-cases (class (code c))) [
    | inl y ↦ extended Q R c s (k s) (λ t. qr c t y) (h s) ts (ground (arith, y, e))
    | inr n ↦ absurd (ground (arith, n, e))
  ]

  match_repeat-Sound :
      (r : Repeat) (class : ℕ → Bool) (k : String → Found)
      → Sound P k
      → Sound (Begun (Fits r class) P) (match_repeat r class k)
  unfolding match_repeat Fits IsOne IsSome
  match_repeat-Sound once class k h =
      after_one-Sound (λ t. t ≡ "") (IsOne class) class (λ r. begin_piece (k r)) (λ c t y q. (y, q))
        (λ s. begun (λ t. t ≡ "") s (k s) refl (h s))
  match_repeat-Sound star class k h = greedy-Sound class k h
  match_repeat-Sound plus class k h =
      after_one-Sound (AllOf class) (IsSome class) class (greedy class k) (λ c t y q. (y, q))
        (greedy-Sound class k h)
  match_repeat-Sound plus_lazy class k h =
      after_one-Sound (AllOf class) (IsSome class) class (lazy class k) (λ c t y q. (y, q))
        (lazy-Sound class k h)

Begun-AllFit :
    (p : Piece) (ps : List Piece) (ts : List String)
    → Begun (Fits p.repeat p.class) (AllFit ps) ts
    → AllFit (p ∷ ps) ts
unfolding AllFit Begun
Begun-AllFit p ps [] b = b
Begun-AllFit p ps (t ∷ ts) b = b

-- The texts that are found make up the text, each of the class of its piece.
pub match_all-Sound : (ps : List Piece) → Sound (AllFit ps) (match_all ps)
unfolding match_all AllFit
match_all-Sound [] String.[] [] e = (tt, refl)
match_all-Sound [] String.[] (t ∷ ts) e = absurd (ground (arith, e))
match_all-Sound [] (String.◌∷◌ c s) ts e = absurd (ground (arith, e))
match_all-Sound (p ∷ ps) s ts e =
    let (b, j) =
      match_repeat-Sound (AllFit ps) p.repeat p.class (match_all ps) (match_all-Sound ps) s ts e in
    (Begun-AllFit p ps ts b, j)

is_some-extend : (c : Char) (f : Found) → is_some (extend c f) ≡ is_some f
unfolding extend
is_some-extend c none = refl
is_some-extend c (some []) = refl
is_some-extend c (some (t ∷ ts)) = refl

is_some-begin_piece : (f : Found) → is_some (begin_piece f) ≡ is_some f
unfolding begin_piece
is_some-begin_piece none = refl
is_some-begin_piece (some ts) = refl

is_some-or_else :
    (f g : Found) → (is_some f ≡ true) ⊎ (is_some g ≡ true) → is_some (or_else f g) ≡ true
is_some-or_else (some ts) g h = refl
is_some-or_else none g (inl h) = absurd (ground (arith, h))
is_some-or_else none g (inr h) = h

module _ (class : ℕ → Bool) (k : String → Found) where
  greedy_stops : (s : String) → is_some (k s) ≡ true → is_some (greedy class k s) ≡ true
  unfolding greedy
  greedy_stops String.[] h = is_some-begin_piece (k "") ∙ h
  greedy_stops (String.◌∷◌ c s) h =
      let stop = begin_piece (k (String.◌∷◌ c s)) in
      let stops : is_some stop ≡ true = is_some-begin_piece (k (String.◌∷◌ c s)) ∙ h in
      elim (Bool-cases (class (code c))) [
        | inl y ↦ rw y (is_some-or_else (extend c (greedy class k s)) stop (inr stops))
        | inr n ↦ rw n stops
      ]

  lazy_stops : (s : String) → is_some (k s) ≡ true → is_some (lazy class k s) ≡ true
  unfolding lazy
  lazy_stops String.[] h = is_some-begin_piece (k "") ∙ h
  lazy_stops (String.◌∷◌ c s) h =
      let stop = begin_piece (k (String.◌∷◌ c s)) in
      let stops : is_some stop ≡ true = is_some-begin_piece (k (String.◌∷◌ c s)) ∙ h in
      elim (Bool-cases (class (code c))) [
        | inl y ↦ rw y (is_some-or_else stop (extend c (lazy class k s)) (inl stops))
        | inr n ↦ rw n stops
      ]

  greedy_finds :
      (t s : String)
      → AllOf class t
      → is_some (k s) ≡ true
      → is_some (greedy class k (t <> s)) ≡ true
  unfolding greedy AllOf
  greedy_finds String.[] s a h = rw (nil-append s) (greedy_stops s h)
  greedy_finds (String.◌∷◌ c t) s (y, a) h =
      rw (cons-append c t s, y)
        (is_some-or_else (extend c (greedy class k (t <> s))) _
          (inl (is_some-extend c (greedy class k (t <> s)) ∙ greedy_finds t s a h)))

  lazy_finds :
      (t s : String) → AllOf class t → is_some (k s) ≡ true → is_some (lazy class k (t <> s)) ≡ true
  unfolding lazy AllOf
  lazy_finds String.[] s a h = rw (nil-append s) (lazy_stops s h)
  lazy_finds (String.◌∷◌ c t) s (y, a) h =
      rw (cons-append c t s, y)
        (is_some-or_else _ (extend c (lazy class k (t <> s)))
          (inr (is_some-extend c (lazy class k (t <> s)) ∙ lazy_finds t s a h)))

after_one_finds :
    (class : ℕ → Bool) (k : String → Found) (c : Char) (t s : String)
    → class (code c) ≡ true
    → is_some (k (t <> s)) ≡ true
    → is_some (after_one class k (String.◌∷◌ c t <> s)) ≡ true
unfolding after_one
after_one_finds class k c t s y h = rw (cons-append c t s, y) (is_some-extend c (k (t <> s)) ∙ h)

match_repeat_finds :
    (r : Repeat) (class : ℕ → Bool) (k : String → Found) (t s : String)
    → Fits r class t
    → is_some (k s) ≡ true
    → is_some (match_repeat r class k (t <> s)) ≡ true
unfolding match_repeat Fits IsOne IsSome
match_repeat_finds once class k String.[] s f h = absurd f
match_repeat_finds once class k (String.◌∷◌ c t) s (y, e) h =
    after_one_finds class (λ r. begin_piece (k r)) c t s y
      (is_some-begin_piece (k (t <> s))
        ∙ ap (λ (r : String). is_some (k r)) (ap (λ (r : String). r <> s) e ∙ nil-append s)
        ∙ h)
match_repeat_finds star class k t s f h = greedy_finds class k t s f h
match_repeat_finds plus class k String.[] s f h = absurd f
match_repeat_finds plus class k (String.◌∷◌ c t) s (y, a) h =
    after_one_finds class (greedy class k) c t s y (greedy_finds class k t s a h)
match_repeat_finds plus_lazy class k String.[] s f h = absurd f
match_repeat_finds plus_lazy class k (String.◌∷◌ c t) s (y, a) h =
    after_one_finds class (lazy class k) c t s y (lazy_finds class k t s a h)

-- Where a text is made up of texts of the classes, some are found.
pub match_all_finds :
    (ps : List Piece) (ts : List String) → AllFit ps ts → is_some (match_all ps (joined ts)) ≡ true
unfolding match_all AllFit
match_all_finds [] [] f = refl
match_all_finds [] (t ∷ ts) f = absurd f
match_all_finds (p ∷ ps) [] f = absurd f
match_all_finds (p ∷ ps) (t ∷ ts) (f, fs) =
    match_repeat_finds p.repeat p.class (match_all ps) t (joined ts) f (match_all_finds ps ts fs)
