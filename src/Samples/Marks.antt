-- ===== src/Samples/Marks.antt =====
-- The theorems on findings, on one hunk whose added line looks like a path header.
use saffron.Prelude.{
  ℕ, ◌+◌, ◌≤◌, ◌<◌, ◌≡◌, refl, ◌↔◌, ◌⊎◌, true, false, ◌&&◌, List, [], ◌∷◌, ◌++◌, map, Option, none,
  some, Text, codes, leb, ◌-◌, pos, Any, starts_with, same, arith,
}
use saffron.Findings.{
  WordTables, Finding, DiffFacts, HunkHeader, Walk, Severity, hunk_of, walk_lines, is_anchored,
}
use saffron.Findings.Hunks.{BodyLine, added, context, show_line, changed_words, walk_lines-hunk}
use saffron.Findings.Anchors.{Covered, HasLine, Names, is_anchored_iff}

abbrev tables : WordTables
tables = record {
  digits = record { is_digit = λ c. leb 48 c && leb c 57; value = λ c. c - 48 };
  is_word = λ c. leb 97 c && leb c 122;
  casefold = λ word. word;
}

abbrev inside_a : Walk
inside_a = record {
  facts = record { hunk_lines = []; tokens = [] };
  path = codes "a.py";
  old_left = 0;
  new_left = 0;
}

abbrev header_line : Text
header_line = codes "@@ -3 +3,2 @@"

abbrev header : HunkHeader
header = record { old_count = 1; start = 3; count = 2 }

header_read : hunk_of tables header_line ≡ some header
unfolding hunk_of codes starts_with
header_read = refl

-- " x" and "+++ b/c.py".
abbrev body : List BodyLine
body = context (codes "x") ∷ added (codes "++ b/c.py") ∷ []

walk_lines-hunk_example :
    (facts : DiffFacts) × (walk_lines tables inside_a (header_line ∷ map show_line body ++ [])
      ≡ walk_lines tables
          (record { facts = facts; path = codes "a.py"; old_left = 0; new_left = 0 })
          [])
    × (facts.tokens ≡ [] ++ changed_words tables body)
    × ((file : Text) (n : ℕ)
        → Any (Covered file (pos n)) facts.hunk_lines
          ↔ (((file ≡ codes "a.py") × (3 ≤ n) × (n < 3 + 2)) ⊎ Any (Covered file (pos n)) []))
walk_lines-hunk_example =
    walk_lines-hunk tables inside_a header_line header body [] refl header_read
      (refl, omega arith, omega arith, (refl, omega arith, omega arith, (refl, refl)))

abbrev finding : Finding
finding = record {
  lens = codes "adequacy";
  severity = Severity.concern;
  file = codes "a.py";
  line = pos 4;
  claim = codes "untested";
  anchored = false;
  probe = none;
}

abbrev facts : DiffFacts
facts = record {
  hunk_lines = record { path = codes "a.py"; start = 3; count = 2 } ∷ [];
  tokens = codes "c" ∷ codes "py" ∷ [];
}

abbrev no_file : Text → Option Text
no_file path = none

is_anchored_iff_example : (is_anchored tables finding facts no_file ≡ true) ↔ (
    Any (Covered finding.file finding.line) facts.hunk_lines
    ⊎ ((text : Text) × HasLine finding.line text (no_file finding.file)
        × Names tables facts.tokens text))
is_anchored_iff_example = is_anchored_iff tables finding facts no_file

is_covered : is_anchored tables finding facts no_file ≡ true
unfolding is_anchored codes same
is_covered = refl
