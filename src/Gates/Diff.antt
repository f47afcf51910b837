-- ===== src/Gates/Diff.antt =====
-- The header lines of a git diff: `_FILE_HEADER` and `_BINARY` of saffron/gates/core/integrity.py,
-- as the backtracking match of each expression on a line without line feeds.
use saffron.Prelude.{
  ℕ, ◌-◌, ◌/◌, not, ◌&&◌, [], ◌∷◌, ◌++◌, Option, none, some, Text, codes, same, starts_with, length,
  take, drop, is_empty, ◌==◌, if◌then◌else◌,
}
use saffron.Gates.Contract.{ends_with, drop_last}

abbrev pub quote : ℕ
quote = b'"'

-- `(.+)middle\1`: the two halves are as long as each other, so there is one place to look at.
unfoldable pub halves : Text → Text → Option Text
halves middle s =
    let half = take ((length s - length middle) / 2) s in
    if not (is_empty half) && same s (half ++ (middle ++ half)) then some half else none

-- `a or b`
unfoldable pub or_else {ℓ} : {A : Type ℓ} → Option A → Option A → Option A
or_else none b = b
or_else (some a) b = some a

-- `_FILE_HEADER.match(line)`, by the path that it captures.
unfoldable pub file_header : Text → Option Text
unfolding halves or_else ends_with drop_last starts_with
file_header line =
    let plain = codes "diff --git a/" in
    let quoted = codes "diff --git \"a/" in
    or_else
      (if starts_with plain line then halves (codes " b/") (drop (length plain) line) else none)
      (if starts_with quoted line && ends_with quote line
        then halves (codes "\" \"b/") (drop_last (drop (length quoted) line))
        else none)

-- `"?` and then the rest of the expression, the quote tried first.
unfoldable pub optional_quote {ℓ} : {A : Type ℓ} → (Text → Option A) → Text → Option A
unfolding or_else
optional_quote next [] = next []
optional_quote next (c ∷ s) = or_else (if c == quote then next s else none) (next (c ∷ s))

-- A literal and then the rest of the expression.
unfoldable pub literal {ℓ} : {A : Type ℓ} → Text → (Text → Option A) → Text → Option A
unfolding starts_with
literal word next s = if starts_with word s then next (drop (length word) s) else none

-- `(.+?)` behind what it has taken so far, the shortest tried first.
unfoldable pub shortest {ℓ} : {A : Type ℓ} → Text → (Text → Text → Option A) → Text → Option A
unfolding or_else
shortest taken next [] = none
shortest taken next (c ∷ s) = or_else (next (taken ++ c ∷ []) s) (shortest (taken ++ c ∷ []) next s)

-- `(?:"?a/(.+?)"?|/dev/null)` for the prefix `a/`, by the path that it captures.
unfoldable pub side {ℓ} : {A : Type ℓ} → Text → (Option Text → Text → Option A) → Text → Option A
unfolding optional_quote literal shortest or_else
side prefix next s =
    or_else
      (optional_quote (literal prefix (shortest [] (λ path. optional_quote (next (some path))))) s)
      (literal (codes "/dev/null") (next none) s)

abbrev pub at_end : Option Text → Option Text → Text → Option (Option Text × Option Text)
at_end old new [] = some (old, new)
at_end old new (c ∷ s) = none

-- `_BINARY.match(line)`, by the two paths that it captures.
unfoldable pub binary_paths : Text → Option (Option Text × Option Text)
unfolding literal side
binary_paths line =
    literal (codes "Binary files ")
      (side (codes "a/") λ old.
        literal (codes " and ")
          (side (codes "b/") λ new. literal (codes " differ") (at_end old new)))
      line
