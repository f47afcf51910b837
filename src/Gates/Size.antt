-- ===== src/Gates/Size.antt =====
-- saffron/gates/core/size.py: the files of a diff, their token counts, and the `size` gate.
pub mod Verdict
use saffron.Prelude.{
  ℕ, suc, ◌+◌, ◌-◌, ◌*◌, Bool, true, false, not, ◌&&◌, ◌||◌, List, [], ◌∷◌, ◌++◌, map, Option, none,
  some, Text, codes, same, starts_with, join, decimal, is_empty, any, filter, leb, drop, ◌==◌,
  if◌then◌else◌,
}
use saffron.Gates.Contract.{
  CharClasses, Failure, GateResult, gate_result, pass, fail, error, split_lines,
}
use saffron.Gates.Diff.{or_else, file_header, binary_paths}
use saffron.Gates.Glob.{matches}
use saffron.Gates.Tokens.{token_count, tokens_per_line}

-- `_CEILINGS.get(spec_type, _DEFAULT_CEILING)`
unfoldable pub ceiling_of : Text → ℕ
ceiling_of spec_type =
    if same spec_type (codes "bug")
    then 1300
    else if same spec_type (codes "feature")
    then 3000
    else 4200

pub record FileBlock : Type 0 where
  pub path : Text
  pub old : List Text
  pub new : List Text
  pub physical : ℕ

-- The loop's variables.
pub record Scan : Type 0 where
  pub blocks : List FileBlock
  pub path : Text
  pub old : List Text
  pub new : List Text
  pub physical : ℕ
  pub in_headers : Bool
  pub saw_hunk : Bool

-- `flush()`, by the blocks behind it.
unfoldable pub flush : Scan → List FileBlock
flush scan =
    if scan.saw_hunk
    then scan.blocks
      ++ record { path = scan.path; old = scan.old; new = scan.new; physical = scan.physical } ∷ []
    else scan.blocks

abbrev pub path_or_empty : Option Text → Text
path_or_empty none = []
path_or_empty (some path) = path

unfoldable pub open_block : Text → Scan → Scan
unfolding flush
open_block line scan = record {
  blocks = flush scan;
  path = path_or_empty (file_header line);
  old = [];
  new = [];
  physical = 0;
  in_headers = true;
  saw_hunk = false;
}

abbrev pub open_hunk : Scan → Scan
open_hunk scan = record {
  blocks = scan.blocks;
  path = scan.path;
  old = scan.old;
  new = scan.new;
  physical = scan.physical;
  in_headers = false;
  saw_hunk = true;
}

-- More tokens for the two streams, and so many changed lines.
abbrev pub extend : List Text → List Text → ℕ → Scan → Scan
extend removed added lines scan = record {
  blocks = scan.blocks;
  path = scan.path;
  old = scan.old ++ removed;
  new = scan.new ++ added;
  physical = scan.physical + lines;
  in_headers = scan.in_headers;
  saw_hunk = scan.saw_hunk;
}

-- A word put in front of the words behind it, if it is one.
abbrev pub put_word : Text → List Text → List Text
put_word [] words = words
put_word (c ∷ word) words = (c ∷ word) ∷ words

-- The rest of a word, and the words behind it.
split_from : (ℕ → Bool) → Text → Text × List Text
split_from is_space [] = ([], [])
split_from is_space (c ∷ s) =
    let (word, words) = split_from is_space s in
    if is_space c then ([], put_word word words) else (c ∷ word, words)

-- `text.split()`
unfoldable pub split_words : (ℕ → Bool) → Text → List Text
unfolding split_from
split_words is_space s = let (word, words) = split_from is_space s in put_word word words

-- An entry of `_token_counts`.
pub record TokenCount : Type 0 where
  pub path : Text
  pub count : ℕ
  pub estimated : Bool

unfoldable pub count_block : FileBlock → TokenCount
count_block block =
    let (count, estimated) = token_count block.old block.new block.physical in
    record { path = block.path; count = count; estimated = estimated }

-- `sum(count for …)`
unfoldable pub total : List TokenCount → ℕ
total [] = 0
total (entry ∷ counts) = entry.count + total counts

abbrev pub hidden_path : Option Text × Option Text → Text
hidden_path (old, new) = path_or_empty (or_else new old)

unfoldable pub hidden_paths : List Text → List Text
hidden_paths [] = []
hidden_paths (line ∷ lines) = elim (binary_paths line) [
  | none ↦ hidden_paths lines
  | some sides ↦ hidden_path sides ∷ hidden_paths lines
]

unfoldable pub unreadable_paths : Text → List Text
unfolding hidden_paths
unreadable_paths diff = hidden_paths (split_lines diff)

unfoldable pub declared : List Text → Text → Bool
declared touches path = is_empty touches || any (matches path) touches

unfoldable pub under_test_path : List Text → Text → Bool
under_test_path test_paths path = any (matches path) test_paths

-- `next((path for path in paths if …), None)`
unfoldable pub first_where : (Text → Bool) → List Text → Option Text
first_where test [] = none
first_where test (path ∷ paths) = if test path then some path else first_where test paths

unfoldable pub unreadable_declared_path : Text → List Text → Option Text
unfolding first_where
unreadable_declared_path diff touches = first_where (declared touches) (unreadable_paths diff)

-- `notes`, and `caveat`
unfoldable pub caveat : List Text → List Text → ℕ → Text
caveat hidden estimated excluded =
    let hidden_note =
      if is_empty hidden
      then []
      else (join (codes ", ") hidden ++ codes " unreadable, not counted") ∷ [] in
    let estimated_note =
      if is_empty estimated
      then []
      else (join (codes ", ") estimated
          ++ (codes " past the token-diff bound, estimated at "
              ++ (decimal tokens_per_line ++ codes " tokens a changed line")))
        ∷ [] in
    let excluded_note =
      if excluded == 0
      then []
      else (decimal excluded ++ codes " changed tokens under the declared test paths, not counted")
        ∷ [] in
    let notes = hidden_note ++ (estimated_note ++ excluded_note) in
    if is_empty notes then [] else codes " (" ++ (join (codes "; ") notes ++ codes ")")

-- The verdict on so many tokens.
unfoldable pub size_verdict : ℕ → ℕ → Text → Text → GateResult
size_verdict tokens ceiling spec_type note =
    let exceeds =
      decimal tokens
      ++ (codes " changed tokens exceeds the "
          ++ (spec_type ++ (codes " ceiling of " ++ decimal ceiling))) in
    if leb tokens ceiling
    then gate_result (codes "size") pass [] (
        decimal tokens
        ++ (codes " changed tokens within the "
            ++ (spec_type ++ (codes " ceiling of " ++ (decimal ceiling ++ note)))))
    else gate_result (codes "size") fail
        (record { file = []; line = none; code = codes "diff-too-large"; message = exceeds } ∷ [])
        (exceeds ++ note)

module _ (classes : CharClasses) where
  -- A line of a hunk.
  unfoldable pub read_content : Text → Scan → Scan
  unfolding split_words starts_with
  read_content line scan =
      let tokens = split_words classes.is_space (drop 1 line) in
      if starts_with (codes "+") line
      then extend [] tokens 1 scan
      else if starts_with (codes "-") line
      then extend tokens [] 1 scan
      else if starts_with (codes " ") line || is_empty line
      then extend tokens tokens 0 scan
      else scan

  unfoldable pub read_line : Text → Scan → Scan
  unfolding read_content open_block starts_with
  read_line line scan =
      if starts_with (codes "diff --git ") line
      then open_block line scan
      else if starts_with (codes "@@") line
      then open_hunk scan
      else if scan.in_headers
      then scan
      else read_content line scan

  unfoldable pub read_lines : List Text → Scan → Scan
  unfolding read_line
  read_lines [] scan = scan
  read_lines (line ∷ lines) scan = read_lines lines (read_line line scan)

  abbrev pub no_scan : Scan
  no_scan = record {
    blocks = [];
    path = [];
    old = [];
    new = [];
    physical = 0;
    in_headers = true;
    saw_hunk = false;
  }

  unfoldable pub file_blocks : Text → List FileBlock
  unfolding read_lines flush
  file_blocks diff = flush (read_lines (split_lines diff) no_scan)

  unfoldable pub token_counts : Text → List TokenCount
  unfolding file_blocks
  token_counts diff = map count_block (file_blocks diff)

  unfoldable pub changed_lines : Text → ℕ
  unfolding token_counts
  changed_lines diff = total (token_counts diff)

  -- The measurement, behind the check for a hidden file.
  unfoldable pub measure : Text → Text → List Text → GateResult
  unfolding size_verdict changed_lines
  measure diff spec_type test_paths =
      let counts = token_counts diff in
      let excluded = total (filter (λ entry. under_test_path test_paths entry.path) counts) in
      let estimated =
        map (λ entry. entry.path)
          (filter (λ entry. entry.estimated && not (under_test_path test_paths entry.path))
            counts) in
      size_verdict (changed_lines diff - excluded) (ceiling_of spec_type) spec_type
        (caveat (unreadable_paths diff) estimated excluded)

  unfoldable pub size_gate : Text → Text → List Text → Bool → List Text → GateResult
  unfolding measure
  size_gate diff spec_type touches blocking test_paths =
      elim (unreadable_declared_path diff touches) [
        | none ↦ measure diff spec_type test_paths
        | some path ↦
            if blocking
            then gate_result (codes "size") error []
                (codes "content hidden as binary, so changed tokens are unreadable: " ++ path)
            else measure diff spec_type test_paths
      ]
