-- ===== src/Gates/Patch.antt =====
-- saffron/gates/core/integrity.py: the parsing of a unified diff.
use saffron.Prelude.{
  ℕ, suc, ◌+◌, ◌*◌, Bool, true, false, ◌||◌, List, [], ◌∷◌, ◌++◌, map, Option, none, some, Text,
  codes, starts_with, take, drop, is_empty, join, if◌then◌else◌,
}
use saffron.Gates.Contract.{split_lines, ends_with, drop_last}
use saffron.Gates.Diff.{or_else, file_header, literal, side, binary_paths}
use saffron.Gates.Scope.{matches_any}

pub data Kind : Type 0 where
  added removed context : Kind

pub record HunkLine : Type 0 where
  pub kind : Kind
  pub content : Text
  pub new_line : Option ℕ

-- `_FileDiff`
pub record FileDiff : Type 0 where
  pub old_path : Option Text
  pub new_path : Option Text
  pub unreadable : Bool
  pub hunks : List (List HunkLine)

unfoldable pub path_of : FileDiff → Text
path_of file = elim (or_else file.new_path file.old_path) [ none ↦ [] | some path ↦ path ]

abbrev pub matches_side : List Text → Option Text → Bool
matches_side patterns none = false
matches_side patterns (some path) = matches_any patterns path

-- `file_diff.matches_any(patterns)`
unfoldable pub file_matches : FileDiff → List Text → Bool
file_matches file patterns =
    matches_side patterns file.old_path || matches_side patterns file.new_path

-- `_DiffError` with its summary, or what was read.
pub data Read {ℓ} (A : Type ℓ) : Type ℓ where
  diff_error : Text → Read A
  read : A → Read A

-- The first `diff --git ` line that is no header.
unfoldable pub first_headless : List Text → Option Text
unfolding starts_with file_header
first_headless [] = none
first_headless (line ∷ lines) =
    let rest = first_headless lines in
    if starts_with (codes "diff --git ") line
    then elim (file_header line) [ none ↦ some line | some path ↦ rest ]
    else rest

-- The lines up to the next header, and the blocks from there.
unfoldable pub group_blocks : List Text → List Text × List (List Text)
unfolding starts_with
group_blocks [] = ([], [])
group_blocks (line ∷ lines) =
    let (open_, blocks) = group_blocks lines in
    if starts_with (codes "diff --git ") line
    then ([], (line ∷ open_) ∷ blocks)
    else (line ∷ open_, blocks)

unfoldable pub split_blocks : Text → Read (List Text)
unfolding first_headless group_blocks
split_blocks diff = elim (first_headless (split_lines diff)) [
  | none ↦ read (map (join (codes "\n")) (group_blocks (split_lines diff)).1)
  | some line ↦ diff_error (
      codes "not the a/X b/X header --no-renames guarantees, so paths are unreadable: "
      ++ take 120 line)
]

-- `_OLD_PATH.match(line)` and `_NEW_PATH.match(line)`, by the path that they capture.
abbrev pub path_at_end : Option Text → Text → Option (Option Text)
path_at_end path [] = some path
path_at_end path (c ∷ s) = none

unfoldable pub path_header : Text → Text → Text → Option (Option Text)
unfolding literal side
path_header marker prefix line = literal marker (side prefix path_at_end) line

abbrev pub strip_tab : Option Text → Option Text
strip_tab none = none
strip_tab (some path) = some (if ends_with 9 path then drop_last path else path)

-- The loop's variables.
pub record Reading : Type 0 where
  pub old_path : Option Text
  pub new_path : Option Text
  pub saw_hunk : Bool
  pub hunks : List (List HunkLine)
  pub new_line : ℕ

abbrev pub with_paths : Option Text → Option Text → Reading → Reading
with_paths old_path new_path reading = record {
  old_path = old_path;
  new_path = new_path;
  saw_hunk = reading.saw_hunk;
  hunks = reading.hunks;
  new_line = reading.new_line;
}

-- A line put at the end of the last hunk.
unfoldable pub add_line : HunkLine → List (List HunkLine) → List (List HunkLine)
add_line line [] = []
add_line line (hunk ∷ []) = (hunk ++ line ∷ []) ∷ []
add_line line (hunk ∷ next ∷ hunks) = hunk ∷ add_line line (next ∷ hunks)

abbrev pub with_line : Kind → Text → Option ℕ → ℕ → Reading → Reading
with_line kind content number new_line reading = record {
  old_path = reading.old_path;
  new_path = reading.new_path;
  saw_hunk = reading.saw_hunk;
  hunks = add_line (record { kind = kind; content = content; new_line = number }) reading.hunks;
  new_line = new_line;
}

-- What a line comes to: an error, a binary file that ends the block, or more of it.
pub data Step : Type 0 where
  broken : Text → Step
  binary : FileDiff → Step
  more : Reading → Step

-- A line of a hunk.
unfoldable pub read_hunk_line : Text → Reading → Step
unfolding add_line starts_with
read_hunk_line line reading =
    if starts_with (codes "+") line
    then more (with_line added (drop 1 line) (some reading.new_line) (suc reading.new_line) reading)
    else if starts_with (codes "-") line
    then more (with_line removed (drop 1 line) none reading.new_line reading)
    else if starts_with (codes " ") line || is_empty line
    then more
        (with_line context (drop 1 line) (some reading.new_line) (suc reading.new_line) reading)
    else if starts_with (codes "\\") line
    then more reading
    else broken (codes "unrecognised hunk content line: " ++ take 120 line)

-- The Unicode tables behind `\d` and `int`.
pub record Digits : Type 0 where
  pub is_digit : ℕ → Bool
  pub value : ℕ → ℕ

module _ (digits : Digits) where
  -- `\d+`, taken whole: what follows it in the expression is no digit.
  unfoldable pub take_digits : Text → Text × Text
  take_digits [] = ([], [])
  take_digits (c ∷ s) =
      let (number, rest) = take_digits s in
      if digits.is_digit c then (c ∷ number, rest) else ([], c ∷ s)

  -- `int(text)`
  unfoldable pub int_from : ℕ → Text → ℕ
  int_from n [] = n
  int_from n (c ∷ s) = int_from (10 * n + digits.value c) s

  unfoldable pub number_then {ℓ} : {A : Type ℓ} → (ℕ → Text → Option A) → Text → Option A
  unfolding take_digits int_from
  number_then next s =
      let (number, rest) = take_digits s in
      if is_empty number then none else next (int_from 0 number) rest

  -- `(?:,\d+)?` and then the rest of the expression.
  unfoldable pub optional_count {ℓ} : {A : Type ℓ} → (Text → Option A) → Text → Option A
  unfolding or_else literal number_then
  optional_count next s = or_else (literal (codes ",") (number_then λ n. next) s) (next s)

  -- `_HUNK_HEADER.match(line)`, by the number that it captures.
  unfoldable pub hunk_header : Text → Option ℕ
  unfolding optional_count number_then literal
  hunk_header line =
      literal (codes "@@ -")
        (number_then λ old. optional_count (
          literal (codes " +")
            (number_then λ new. optional_count (literal (codes " @@") λ rest. some new))))
        line

  unfoldable pub read_body : Text → Reading → Step
  unfolding read_hunk_line hunk_header starts_with
  read_body line reading =
      if starts_with (codes "@@") line
      then elim (hunk_header line) [
        | none ↦ broken (codes "unreadable hunk header: " ++ take 120 line)
        | some number ↦ more (record {
          old_path = reading.old_path;
          new_path = reading.new_path;
          saw_hunk = true;
          hunks = reading.hunks ++ [] ∷ [];
          new_line = number;
        })
      ]
      else if reading.saw_hunk
      then read_hunk_line line reading
      else more reading

  -- A line before the first hunk.
  unfoldable pub read_head : Text → Reading → Step
  unfolding read_body path_header starts_with
  read_head line reading = elim (binary_paths line) [
    | some (old_path, new_path) ↦
        binary (record { old_path = old_path; new_path = new_path; unreadable = true; hunks = [] })
    | none ↦ elim (file_header line) [
      | some path ↦ more (with_paths (some path) (some path) reading)
      | none ↦
          if starts_with (codes "--- ") line
          then elim (path_header (codes "--- ") (codes "a/") line) [
            | none ↦ broken (codes "unreadable old-file header: " ++ take 120 line)
            | some path ↦ more (with_paths (strip_tab path) reading.new_path reading)
          ]
          else if starts_with (codes "+++ ") line
          then elim (path_header (codes "+++ ") (codes "b/") line) [
            | none ↦ broken (codes "unreadable new-file header: " ++ take 120 line)
            | some path ↦ more (with_paths reading.old_path (strip_tab path) reading)
          ]
          else read_body line reading
    ]
  ]

  unfoldable pub read_step : Text → Reading → Step
  unfolding read_head read_body
  read_step line reading =
      if reading.saw_hunk then read_body line reading else read_head line reading

  abbrev pub go_on : Step → (Reading → Read FileDiff) → Read FileDiff
  go_on (broken summary) next = diff_error summary
  go_on (binary file) next = read file
  go_on (more reading) next = next reading

  unfoldable pub parse_lines : List Text → Reading → Read FileDiff
  unfolding read_step
  parse_lines [] reading = read (record {
    old_path = reading.old_path;
    new_path = reading.new_path;
    unreadable = false;
    hunks = reading.hunks;
  })
  parse_lines (line ∷ lines) reading =
      go_on (read_step line reading) λ reading'. parse_lines lines reading'

  abbrev pub start_reading : Reading
  start_reading = record {
    old_path = none;
    new_path = none;
    saw_hunk = false;
    hunks = [];
    new_line = 0;
  }

  unfoldable pub parse_block : Text → Read FileDiff
  unfolding parse_lines
  parse_block block = parse_lines (split_lines block) start_reading

  abbrev pub cons_read : Read FileDiff → Read (List FileDiff) → Read (List FileDiff)
  cons_read (diff_error summary) rest = diff_error summary
  cons_read (read file) (diff_error summary) = diff_error summary
  cons_read (read file) (read files) = read (file ∷ files)

  unfoldable pub parse_blocks : List Text → Read (List FileDiff)
  unfolding parse_block
  parse_blocks [] = read []
  parse_blocks (block ∷ blocks) = cons_read (parse_block block) (parse_blocks blocks)

  -- `[_parse_block(block) for block in _split_blocks(diff)]`
  unfoldable pub parse_diff : Text → Read (List FileDiff)
  unfolding parse_blocks split_blocks
  parse_diff diff = elim (split_blocks diff) [
    | diff_error summary ↦ diff_error summary
    | read blocks ↦ parse_blocks blocks
  ]
