-- ===== src/Samples/Globs.antt =====
-- The glob, scope and risk theorems, on small patterns and changes.
use saffron.Prelude.{
  ◌≡◌, refl, ◌≢◌, ◌↔◌, ◌⊎◌, true, List, [], ◌∷◌, none, some, arith, Text, codes, All, Any,
}
use saffron.Policy.{effective_risk}
use saffron.Policy.Risk.{effective_risk_iff}
use saffron.Gates.Contract.{pass, fail, error}
use saffron.Gates.Glob.{matches, star, line_feed}
use saffron.Gates.Glob.Language.{Glob, matches_iff}
use saffron.Gates.Glob.Slashes.{IsShallow, IsLiteral, matches-everything}
use saffron.Gates.Scope.{scope_gate}
use saffron.Gates.Scope.Verdict.{IsReadable, IsAllowed, scope_gate-pass_iff, scope_gate-error_iff}

-- "a/b" and "*/b".
abbrev path : Text
path = b'a' ∷ b'/' ∷ b'b' ∷ []

abbrev pattern : Text
pattern = b'*' ∷ b'/' ∷ b'b' ∷ []

matches_iff_example : (matches path pattern ≡ true) ↔ Glob path pattern
matches_iff_example = matches_iff path pattern

is_matched : matches path pattern ≡ true
unfolding matches
is_matched = refl

pattern-IsShallow : IsShallow pattern
pattern-IsShallow = (ground arith, (ground arith, tt))

matches-everything_example :
    (matches path (star ∷ star ∷ []) ≡ true) ↔ All (λ c. c ≢ line_feed) path
matches-everything_example = matches-everything path

-- A file's name with a line feed in it, which `**` does not match and `*` does.
abbrev two_lines : Text
two_lines = b'a' ∷ 10 ∷ b'b' ∷ []

unmatched : matches two_lines (star ∷ star ∷ []) ≢ true
unfolding matches
unmatched e = ground arith

matched_by_star : matches two_lines (star ∷ []) ≡ true
unfolding matches
matched_by_star = refl

path-IsLiteral : IsLiteral path
path-IsLiteral = (
  (ground arith, ground arith),
  ((ground arith, ground arith), ((ground arith, ground arith), tt)),
)

effective_risk_iff_example :
    ((effective_risk [] (path ∷ []) (pattern ∷ []) ≡ codes "elevated")
      ↔ (([] ≡ codes "elevated") ⊎ Any (λ p. Any (Glob p) (pattern ∷ [])) (path ∷ [])))
    × ((effective_risk [] (path ∷ []) (pattern ∷ []) ≢ codes "elevated")
        → effective_risk [] (path ∷ []) (pattern ∷ []) ≡ [])
effective_risk_iff_example = effective_risk_iff [] (path ∷ []) (pattern ∷ [])

abbrev changed : List Text
changed = path ∷ (b'c' ∷ []) ∷ []

scope_gate-pass_iff_example :
    ((scope_gate changed (pattern ∷ []) none [] []).status ≡ pass)
    ↔ (IsReadable none × (pattern ∷ [] ≢ []) × All (IsAllowed (pattern ∷ []) [] []) changed)
scope_gate-pass_iff_example = scope_gate-pass_iff changed (pattern ∷ []) none [] []

scope_gate-error_iff_example :
    (((scope_gate changed (pattern ∷ []) (some []) [] []).status ≡ error)
      ↔ (¬ IsReadable (some [])))
    × ((scope_gate changed (pattern ∷ []) (some []) [] []).status ≡ error
        → (scope_gate changed (pattern ∷ []) (some []) [] []).failures ≡ [])
scope_gate-error_iff_example = scope_gate-error_iff changed (pattern ∷ []) (some []) [] []

one_escapes : (scope_gate changed (pattern ∷ []) none [] []).status ≡ fail
unfolding scope_gate matches
one_escapes = refl
