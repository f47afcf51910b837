-- ===== src/Findings.antt =====
-- saffron/agents/findings.py: the facts of a diff and the anchoring of a critic's findings to them.
-- `\w`, `str.casefold`, the digits and the file contents at head are parameters.
pub mod Hunks
pub mod Anchors
use saffron.Prelude.{
  ℕ, ◌+◌, ◌-◌, Bool, true, false, not, ◌&&◌, ◌||◌, List, [], ◌∷◌, ◌++◌, map, Option, none, some,
  Text, codes, same, elem, filter, any, is_empty, starts_with, drop, length, leb, ltb, ◌==◌, ℤ, pos,
  negsuc, if◌then◌else◌,
}
use saffron.Intake.{Mutant}
use saffron.Gates.Contract.{split_lines}
use saffron.Gates.Diff.{or_else, literal}
use saffron.Gates.Patch.{Digits, number_then}
use saffron.Gates.Size.{split_words}

-- The Unicode tables behind the file's expressions.
pub record WordTables : Type 0 where
  pub digits : Digits
  pub is_word : ℕ → Bool
  pub casefold : Text → Text

unfoldable pub common_words : List Text
common_words =
    codes "a"
    ∷ codes "an"
    ∷ codes "and"
    ∷ codes "are"
    ∷ codes "as"
    ∷ codes "at"
    ∷ codes "be"
    ∷ codes "been"
    ∷ codes "being"
    ∷ codes "but"
    ∷ codes "by"
    ∷ codes "else"
    ∷ codes "for"
    ∷ codes "from"
    ∷ codes "here"
    ∷ codes "how"
    ∷ codes "if"
    ∷ codes "in"
    ∷ codes "into"
    ∷ codes "is"
    ∷ codes "it"
    ∷ codes "its"
    ∷ codes "no"
    ∷ codes "nor"
    ∷ codes "not"
    ∷ codes "of"
    ∷ codes "on"
    ∷ codes "or"
    ∷ codes "other"
    ∷ codes "so"
    ∷ codes "than"
    ∷ codes "that"
    ∷ codes "the"
    ∷ codes "then"
    ∷ codes "there"
    ∷ codes "these"
    ∷ codes "this"
    ∷ codes "those"
    ∷ codes "to"
    ∷ codes "was"
    ∷ codes "we"
    ∷ codes "were"
    ∷ codes "what"
    ∷ codes "when"
    ∷ codes "where"
    ∷ codes "which"
    ∷ codes "who"
    ∷ codes "whom"
    ∷ codes "whose"
    ∷ codes "why"
    ∷ codes "with"
    ∷ codes "you"
    ∷ codes "your"
    ∷ codes "yours"
    ∷ []

pub data Severity : Type 0 where
  blocker concern note : Severity

-- The fields that the anchoring carries.
pub record Finding : Type 0 where
  pub lens : Text
  pub severity : Severity
  pub file : Text
  pub line : ℤ
  pub claim : Text
  pub anchored : Bool
  pub probe : Option Mutant

-- A range of new-file lines that a hunk covers, `hunk_lines` being the union of a path's ranges.
pub record HunkRange : Type 0 where
  pub path : Text
  pub start : ℕ
  pub count : ℕ

-- The facts, with the path and the counts that the walk has: what is left of the hunk it is in.
pub record DiffFacts : Type 0 where
  pub hunk_lines : List HunkRange
  pub tokens : List Text

pub record Walk : Type 0 where
  pub facts : DiffFacts
  pub path : Text
  pub old_left : ℕ
  pub new_left : ℕ

-- The groups of `_HUNK`, with 1 for a count that is not there.
pub record HunkHeader : Type 0 where
  pub old_count : ℕ
  pub start : ℕ
  pub count : ℕ

abbrev pub count_or_one : Option ℕ → ℕ
count_or_one none = 1
count_or_one (some n) = n

-- `removeprefix("b/")`
abbrev pub strip_b : Text → Text
strip_b path = if starts_with (codes "b/") path then drop 2 path else path

abbrev pub add_tokens : DiffFacts → List Text → DiffFacts
add_tokens facts words = record facts { tokens = facts.tokens ++ words }

-- `hunk_lines.setdefault(path, set()).update(range(start, start + count))`, if there are any.
abbrev pub add_range : Text → HunkHeader → DiffFacts → DiffFacts
add_range path header facts = if header.count == 0 then facts else record facts {
  hunk_lines =
      record { path = path; start = header.start; count = header.count } ∷ facts.hunk_lines;
}

module _ (tables : WordTables) where
  -- `(?:,(\d+))?` and then the rest of the expression.
  unfoldable pub optional_number {ℓ} : {A : Type ℓ} → (Option ℕ → Text → Option A) → Text → Option A
  unfolding or_else literal number_then
  optional_number next s =
      or_else (literal (codes ",") (number_then tables.digits λ n. next (some n)) s) (next none s)

  -- `_HUNK.match(line)`
  unfoldable pub hunk_of : Text → Option HunkHeader
  unfolding optional_number number_then literal
  hunk_of line =
      literal (codes "@@ -")
        (number_then tables.digits λ first. optional_number λ old. literal (codes " +") (
          number_then tables.digits λ start. optional_number λ count. literal (codes " @@") λ rest.
            some
              (record { old_count = count_or_one old; start = start; count = count_or_one count })))
        line

  -- `_WORD.findall(text)`
  unfoldable pub words_of : Text → List Text
  unfolding split_words
  words_of text = split_words (λ c. not (tables.is_word c)) text

  abbrev pub enter_hunk : Walk → Option HunkHeader → Walk
  enter_hunk walk none = walk
  enter_hunk walk (some header) = record walk {
    facts = add_range walk.path header walk.facts;
    old_left = header.old_count;
    new_left = header.count;
  }

  -- A line outside every hunk.
  unfoldable pub read_outside : Walk → Text → Walk
  unfolding hunk_of words_of starts_with
  read_outside walk line =
      if starts_with (codes "+++ ") line
      then record walk { path = strip_b (drop 4 line) }
      else if starts_with (codes "rename from ") line
      then record walk { facts = add_tokens walk.facts (words_of (drop 12 line)) }
      else if starts_with (codes "rename to ") line
      then record walk { facts = add_tokens walk.facts (words_of (drop 10 line)) }
      else enter_hunk walk (hunk_of line)

  -- A line of a hunk's body, by its first character. A count stops at 0 here and may fall below it in
  -- the source, which only asks whether it is above 0.
  unfoldable pub read_inside : Walk → Text → Walk
  unfolding words_of
  read_inside walk [] = record walk { old_left = walk.old_left - 1; new_left = walk.new_left - 1 }
  read_inside walk (c ∷ line) =
      if c == 92
      then walk
      else if c == b'+'
      then record walk {
        facts = add_tokens walk.facts (words_of line);
        new_left = walk.new_left - 1;
      }
      else if c == b'-'
      then record walk {
        facts = add_tokens walk.facts (words_of line);
        old_left = walk.old_left - 1;
      }
      else record walk { old_left = walk.old_left - 1; new_left = walk.new_left - 1 }

  abbrev pub is_inside : Walk → Bool
  is_inside walk = ltb 0 walk.old_left || ltb 0 walk.new_left

  -- The loops of `parse_diff` and `_consume_hunk`.
  unfoldable pub walk_lines : Walk → List Text → Walk
  unfolding read_outside read_inside
  walk_lines walk [] = walk
  walk_lines walk (line ∷ lines) =
      walk_lines (if is_inside walk then read_inside walk line else read_outside walk line) lines

  abbrev pub first_walk : Walk
  first_walk = record {
    facts = record { hunk_lines = []; tokens = [] };
    path = [];
    old_left = 0;
    new_left = 0;
  }

  -- `parse_diff`
  unfoldable pub facts_of : Text → DiffFacts
  unfolding walk_lines split_lines
  facts_of diff = (walk_lines first_walk (split_lines diff)).facts

  abbrev pub in_range : Text → ℤ → HunkRange → Bool
  in_range file (pos n) range =
      same file range.path && (leb range.start n && ltb n (range.start + range.count))
  in_range file (negsuc n) range = false

  -- `lines[line - 1]`, if 1 <= line <= len(lines)
  abbrev pub line_at : ℕ → List Text → Option Text
  line_at ℕ.zero lines = none
  line_at (ℕ.suc n) [] = none
  line_at (ℕ.suc ℕ.zero) (line ∷ lines) = some line
  line_at (ℕ.suc (ℕ.suc n)) (line ∷ lines) = line_at (ℕ.suc n) lines

  abbrev pub cited_line : ℤ → Option Text → Option Text
  cited_line line none = none
  cited_line (pos n) (some content) = line_at n (split_lines content)
  cited_line (negsuc n) (some content) = none

  abbrev pub is_uncommon : Text → Bool
  is_uncommon token = not (elem (tables.casefold token) common_words)

  abbrev pub shares_name : List Text → Option Text → Bool
  shares_name tokens none = false
  shares_name tokens (some line) =
      any (λ token. elem token tokens && is_uncommon token) (words_of line)

  -- `_is_anchored`
  unfoldable pub is_anchored : Finding → DiffFacts → (Text → Option Text) → Bool
  unfolding words_of common_words split_lines
  is_anchored finding facts read_head =
      if any (in_range finding.file finding.line) facts.hunk_lines
      then true
      else shares_name facts.tokens (cited_line finding.line (read_head finding.file))

  -- `anchor`
  unfoldable pub anchor : List Finding → Text → (Text → Option Text) → List Finding
  unfolding is_anchored facts_of
  anchor findings diff read_head =
      map (λ (f : Finding). record f { anchored = is_anchored f (facts_of diff) read_head })
        findings
