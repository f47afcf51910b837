-- ===== src/Gates/Glob.antt =====
-- The glob of saffron/gates/core/scope.py: `_to_regex` and `matches`, with the regular
-- expressions that the translation emits.
pub mod Reading
pub mod Language
pub mod Slashes
use saffron.Prelude.{
  ℕ, Bool, true, false, not, ◌&&◌, ◌||◌, List, [], ◌∷◌, Text, is_empty, ◌==◌, if◌then◌else◌,
}

abbrev pub star : ℕ
star = b'*'

abbrev pub slash : ℕ
slash = b'/'

abbrev pub question : ℕ
question = b'?'

abbrev pub line_feed : ℕ
line_feed = 10

-- A piece of the regular expression: `re.escape` of a character, and the four translations
-- `(?:[^/]+/)*`, `.*`, `[^/]*` and `[^/]`.
pub data Piece : Type 0 where
  escaped : ℕ → Piece
  directories everything segment one : Piece

unfoldable pub single : ℕ → Piece
single c = if c == star then segment else if c == question then one else escaped c

-- The tokens `**/`, `**`, `*` and `?` in that order of preference, and the text between them.
unfoldable pub to_regex : Text → List Piece
unfolding single
to_regex [] = []
to_regex (a ∷ []) = single a ∷ []
to_regex (a ∷ b ∷ []) =
    let shorter = to_regex (b ∷ []) in
    if a == star && b == star then everything ∷ [] else single a ∷ shorter
to_regex (a ∷ b ∷ c ∷ rest) =
    let after_three = to_regex rest in
    let after_two = to_regex (c ∷ rest) in
    let after_one = to_regex (b ∷ c ∷ rest) in
    if a == star && (b == star && c == slash)
    then directories ∷ after_three
    else if a == star && b == star
    then everything ∷ after_two
    else single a ∷ after_one

-- A class, repeated, and then the rest of the expression.
unfoldable pub repeat : (ℕ → Bool) → (Text → Bool) → Text → Bool
repeat test next [] = next []
repeat test next (c ∷ s) = let more = repeat test next s in next (c ∷ s) || (test c && more)

-- `(?:[^/]+/)*` and then the rest, from the start of a round or from inside `[^/]+`.
unfoldable pub rounds : (Text → Bool) → Bool → Text → Bool
rounds next inside [] = not inside && next []
rounds next inside (c ∷ s) =
    let closed = rounds next false s in
    let inner = rounds next true s in
    (not inside && next (c ∷ s)) || (if c == slash then inside && closed else inner)

abbrev pub not_slash : ℕ → Bool
not_slash c = not (c == slash)

-- `.` without DOTALL
abbrev pub not_line_feed : ℕ → Bool
not_line_feed c = not (c == line_feed)

abbrev pub first_then : (ℕ → Bool) → (Text → Bool) → Text → Bool
first_then test next [] = false
first_then test next (c ∷ s) = test c && next s

-- `re.match` of the pieces and `\Z`
unfoldable pub full_match : List Piece → Text → Bool
unfolding repeat rounds
full_match [] s = is_empty s
full_match (escaped a ∷ pieces) s = first_then (λ c. a == c) (full_match pieces) s
full_match (one ∷ pieces) s = first_then not_slash (full_match pieces) s
full_match (segment ∷ pieces) s = repeat not_slash (full_match pieces) s
full_match (everything ∷ pieces) s = repeat not_line_feed (full_match pieces) s
full_match (directories ∷ pieces) s = rounds (full_match pieces) false s

unfoldable pub matches : Text → Text → Bool
unfolding to_regex full_match
matches path pattern = full_match (to_regex pattern) path
