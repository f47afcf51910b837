-- ===== src/Gates/Derived.antt =====
-- The mutants that saffron/gates/core/witness.py derives from a diff: `constant_mutants`.
use saffron.Prelude.{
  ℕ, suc, ◌+◌, ◌-◌, Bool, false, not, ◌&&◌, ◌||◌, List, [], ◌∷◌, ◌++◌, map, Option, none, some,
  Text, codes, same, any, filter, length, take, drop, is_empty, join, ltb, if◌then◌else◌,
}
use saffron.Intake.{Criterion}
use saffron.Policy.{ConstantPattern, WitnessPatterns}
use saffron.Gates.Patch.{
  added, removed, context, HunkLine, FileDiff, path_of, file_matches, diff_error, read, Digits,
  split_blocks, parse_block,
}

-- The lines of a hunk's new side.
unfoldable pub new_lines : List HunkLine → List HunkLine
new_lines [] = []
new_lines (line ∷ hunk) = elim line.kind [
  | added ↦ line ∷ new_lines hunk
  | removed ↦ new_lines hunk
  | context ↦ line ∷ new_lines hunk
]

-- The offsets of the added lines in the joined text, from the position of the first line.
unfoldable pub added_spans : ℕ → List HunkLine → List (ℕ × ℕ)
added_spans position [] = []
added_spans position (line ∷ lines) =
    let end_ = position + length line.content in
    let rest = added_spans (suc end_) lines in
    elim line.kind [ added ↦ (position, end_) ∷ rest | removed ↦ rest | context ↦ rest ]

-- `_new_side`
unfoldable pub new_side : List HunkLine → Text × List (ℕ × ℕ)
unfolding new_lines added_spans
new_side hunk =
    let lines = new_lines hunk in
    (join (codes "\n") (map (λ line. line.content) lines), added_spans 0 lines)

-- `_overlaps_added`
unfoldable pub overlaps_added : ℕ → ℕ → List (ℕ × ℕ) → Bool
overlaps_added start end_ spans = any (λ span. ltb start span.1 && ltb span.0 end_) spans

unfoldable pub readable_blocks : Digits → List Text → List Text → List FileDiff
readable_blocks digits test_paths [] = []
readable_blocks digits test_paths (block ∷ blocks) =
    let rest = readable_blocks digits test_paths blocks in
    elim (parse_block digits block) [
      | diff_error summary ↦ rest
      | read file ↦ elim file.new_path [
        | none ↦ rest
        | some path ↦ if file.unreadable || file_matches file test_paths then rest else file ∷ rest
      ]
    ]

-- `_readable_files`
unfoldable pub readable_files : Digits → Text → List Text → List FileDiff
unfolding readable_blocks
readable_files digits diff test_paths = elim (split_blocks diff) [
  | diff_error summary ↦ []
  | read blocks ↦ readable_blocks digits test_paths blocks
]

-- A match of a constant's pattern: its span, the group `name`, the span of the group `value`, and
-- the entry's replacement, expanded.
pub record ConstantMatch : Type 0 where
  pub start : ℕ
  pub end_ : ℕ
  pub name : Text
  pub value_start : ℕ
  pub value_end : ℕ
  pub expanded : Text

-- The regular expressions of the repo, as `re` answers them: the matches of a constant's pattern,
-- the group `name` of the first match in a witness, the matches of the body with a name filled in,
-- and whether a text holds a name as a whole word.
pub record Expressions : Type 0 where
  pub find_constants : ConstantPattern → Text → List ConstantMatch
  pub search_name : Text → Text → Option Text
  pub find_bodies : Text → Text → Text → List Text
  pub names_whole_word : Text → Text → Bool

pub record Candidate : Type 0 where
  pub name : Text
  pub file : Text
  pub find : Text
  pub replace : Text

unfoldable pub candidate_at : Text → Text → ConstantMatch → Candidate
candidate_at path text found =
    let find = take (found.end_ - found.start) (drop found.start text) in
    record {
      name = found.name;
      file = path;
      find = find;
      replace =
          take (found.value_start - found.start) find
          ++ (found.expanded ++ drop (found.value_end - found.start) find);
    }

module _ (expressions : Expressions) where
  unfoldable pub candidates_in : Text → Text → List (ℕ × ℕ) → List ConstantPattern → List Candidate
  unfolding candidate_at overlaps_added
  candidates_in path text spans [] = []
  candidates_in path text spans (entry ∷ constants) =
      map (candidate_at path text) (
        filter (λ found. overlaps_added found.start found.end_ spans)
          (expressions.find_constants entry text))
      ++ candidates_in path text spans constants

  unfoldable pub hunk_candidates :
      Text → List ConstantPattern → List (List HunkLine) → List Candidate
  unfolding candidates_in new_side
  hunk_candidates path constants [] = []
  hunk_candidates path constants (hunk ∷ hunks) =
      let (text, spans) = new_side hunk in
      candidates_in path text spans constants ++ hunk_candidates path constants hunks

  unfoldable pub file_candidates : List ConstantPattern → List FileDiff → List Candidate
  unfolding hunk_candidates
  file_candidates constants [] = []
  file_candidates constants (file ∷ files) =
      hunk_candidates (path_of file) constants file.hunks ++ file_candidates constants files

  unfoldable pub hunk_bodies : Text → Text → List (List HunkLine) → List Text
  hunk_bodies body name [] = []
  hunk_bodies body name (hunk ∷ hunks) =
      expressions.find_bodies body name (new_side hunk).0 ++ hunk_bodies body name hunks

  unfoldable pub file_bodies : Text → Text → List FileDiff → List Text
  unfolding hunk_bodies
  file_bodies body name [] = []
  file_bodies body name (file ∷ files) =
      hunk_bodies body name file.hunks ++ file_bodies body name files

  -- The text of a criterion's witness; the source keeps it by witness.
  unfoldable pub witness_text : Digits → Text → Text → Text → Criterion → Text
  unfolding file_bodies readable_files
  witness_text digits diff witness_name body criterion =
      elim (expressions.search_name witness_name criterion.witness) [
        | none ↦ []
        | some name ↦ join (codes "\n") (file_bodies body name (readable_files digits diff []))
      ]

  abbrev pub derived_from : Criterion → Candidate → Criterion
  derived_from criterion candidate = record {
    claim =
        codes "the witness names `"
        ++ (candidate.name
            ++ codes "` and passes with any value of it, so pin the value as a literal");
    witness = criterion.witness;
    preserves = false;
    mutant =
        some (record { file = candidate.file; find = candidate.find; replace = candidate.replace });
    subject = none;
    wrong_versions = [];
  }

  -- The inner loop, with the pairs emitted before it.
  unfoldable pub derive_at :
      Criterion → Text → List Candidate → List (Text × Text) → List Criterion × List (Text × Text)
  derive_at criterion text [] emitted = ([], emitted)
  derive_at criterion text (candidate ∷ candidates) emitted =
      let kept =
        not (any (λ key. same key.0 criterion.witness && same key.1 candidate.name) emitted)
        && expressions.names_whole_word text candidate.name in
      let (derived, emitted') =
        derive_at criterion text candidates
          (if kept then (criterion.witness, candidate.name) ∷ emitted else emitted) in
      (if kept then derived_from criterion candidate ∷ derived else derived, emitted')

  unfoldable pub derive_all :
      (Criterion → Text) → List Criterion → List Candidate → List (Text × Text) → List Criterion
  unfolding derive_at
  derive_all text_of [] candidates emitted = []
  derive_all text_of (criterion ∷ acceptance) candidates emitted =
      let text = text_of criterion in
      let (derived, emitted') =
        if is_empty text then ([], emitted) else derive_at criterion text candidates emitted in
      derived ++ derive_all text_of acceptance candidates emitted'

  unfoldable pub constant_mutants :
      Digits → Text → List Criterion → WitnessPatterns → List Text → List Criterion
  unfolding derive_all file_candidates witness_text
  constant_mutants digits diff acceptance patterns test_paths = elim patterns.witness_name [
    | none ↦ []
    | some witness_name ↦ elim patterns.witness_body [
      | none ↦ []
      | some body ↦
          if is_empty witness_name || (is_empty body || is_empty patterns.constants)
          then []
          else derive_all (witness_text digits diff witness_name body) acceptance
              (file_candidates patterns.constants (readable_files digits diff test_paths)) []
    ]
  ]
