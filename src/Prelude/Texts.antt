-- ===== src/Prelude/Texts.antt =====
-- Python's `str` as the list of its code points: equality, order, membership, decimal numbers.
use Prim.Native.Nat.{ℕ, zero, suc, ◌+◌, ◌/◌, ◌%◌}
use Prim.Native.Char.{code}
use Prim.Native.String.{String}
use mathlib.Core.Path.{◌≡◌}
use mathlib.Core.Logic.{◌↔◌, ◌⊎◌}
use mathlib.Core.Bool.{Bool, true, false, ◌&&◌, ◌||◌}
use mathlib.Core.List.{List, [], ◌∷◌, ◌++◌}
use native.Mathlib.Omega.{arith}
use saffron.Prelude.Tests.{◌==◌, ltb, if◌then◌else◌}
use saffron.Prelude.Lists.{Any, any, any_iff, filter}

abbrev pub Text : Type 0
Text = List ℕ

-- The text of a literal. It is shut, so that a literal stays as it is written.
unfoldable pub codes : String → Text
codes String.[] = []
codes (String.◌∷◌ c s) = code c ∷ codes s

-- `a == b`
unfoldable pub same : Text → Text → Bool
same [] [] = true
same (a ∷ s) (b ∷ t) = a == b && same s t
same _ _ = false

pub same_iff : (a b : Text) → (same a b ≡ true) ↔ (a ≡ b)
unfolding same
same_iff [] [] = ground arith
same_iff (a ∷ s) [] = ground arith
same_iff [] (b ∷ t) = ground arith
same_iff (a ∷ s) (b ∷ t) = ground (arith, same_iff s t)

-- `name in names`
abbrev pub elem : Text → List Text → Bool
elem name names = any (same name) names

abbrev pub Elem : Text → List Text → Type 0
Elem name names = Any (λ other. name ≡ other) names

pub elem_iff : (name : Text) (names : List Text) → (elem name names ≡ true) ↔ Elem name names
elem_iff name names = any_iff (same name) (λ other. name ≡ other) (same_iff name) names

-- `text.startswith(prefix)`
unfoldable pub starts_with : Text → Text → Bool
starts_with [] t = true
starts_with (a ∷ s) [] = false
starts_with (a ∷ s) (b ∷ t) = a == b && starts_with s t

-- `a < b` on `str`: by the first code point that differs.
unfoldable pub text_lt : Text → Text → Bool
text_lt [] [] = false
text_lt [] (b ∷ t) = true
text_lt (a ∷ s) [] = false
text_lt (a ∷ s) (b ∷ t) = ltb a b || (a == b && text_lt s t)

abbrev pub onto_first : ℕ → List Text → List Text
onto_first c [] = (c ∷ []) ∷ []
onto_first c (piece ∷ pieces) = (c ∷ piece) ∷ pieces

-- `text.split(separator)` for a separator of one character: one piece more than it occurs.
unfoldable pub split_on : ℕ → Text → List Text
split_on separator [] = [] ∷ []
split_on separator (c ∷ s) =
    let pieces = split_on separator s in if c == separator then [] ∷ pieces else onto_first c pieces

-- `text.partition(separator)`, with whether the separator was found.
unfoldable pub partition : ℕ → Text → Text × Bool × Text
partition separator [] = ([], false, [])
partition separator (c ∷ s) =
    let (before, found, after) = partition separator s in
    if c == separator then ([], true, s) else (c ∷ before, found, after)

-- `separator.join(pieces)`
unfoldable pub join : Text → List Text → Text
join separator [] = []
join separator (piece ∷ []) = piece
join separator (piece ∷ next ∷ rest) = piece ++ (separator ++ join separator (next ∷ rest))

decimal_from : ℕ → ℕ → Text → Text
decimal_from zero n out = out
decimal_from (suc fuel) n out =
    let out' = (48 + n % 10) ∷ out in
    let rest = decimal_from fuel (n / 10) out' in if n / 10 == 0 then out' else rest

-- `str(n)`. A number has at most as many digits as it counts, and one more.
unfoldable pub decimal : ℕ → Text
unfolding decimal_from
decimal n = decimal_from (suc n) n []

pub Elem-append :
    (name : Text) (xs ys : List Text) → Elem name (xs ++ ys) ↔ (Elem name xs ⊎ Elem name ys)
Elem-append name [] ys = ground arith
Elem-append name (x ∷ xs) ys = ground (arith, Elem-append name xs ys)

pub Elem-filter :
    (test : Text → Bool) (name : Text) (names : List Text)
    → Elem name (filter test names) ↔ (Elem name names × (test name ≡ true))
Elem-filter test name [] = ground arith
Elem-filter test name (x ∷ names) = ground (arith, Elem-filter test name names)
