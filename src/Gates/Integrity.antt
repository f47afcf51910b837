-- ===== src/Gates/Integrity.antt =====
-- saffron/gates/core/integrity.py: the `integrity` gate over a parsed diff.
pub mod Verdict
use saffron.Prelude.{
  ℕ, zero, suc, ◌+◌, ◌*◌, Bool, true, false, not, ◌&&◌, ◌||◌, List, [], ◌∷◌, ◌++◌, map, Option,
  none, some, Text, codes, starts_with, length, take, drop, is_empty, any, filter, join, decimal,
  if◌then◌else◌,
}
use saffron.Policy.{IntegrityPatterns}
use saffron.Gates.Contract.{
  ℤ, pos, CharClasses, Failure, GateResult, gate_result, pass, fail, skip, error, split_lines,
  ends_with, drop_last,
}
use saffron.Gates.Diff.{or_else, file_header, literal, side, binary_paths}
use saffron.Gates.Scope.{matches_any}
use saffron.Gates.Patch.{
  Kind, added, removed, context, HunkLine, FileDiff, path_of, file_matches, Read, diff_error, read,
  Digits, parse_diff,
}

-- `token in content`
unfoldable pub contains : Text → Text → Bool
unfolding starts_with
contains token [] = is_empty token
contains token (c ∷ s) = starts_with token (c ∷ s) || contains token s

-- What the loop over the files comes to: a declared file that is hidden, or the failures.
pub data Judged : Type 0 where
  hidden : Text → Judged
  found : List Failure → Judged

abbrev pub prepend : List Failure → Judged → Judged
prepend failures (hidden path) = hidden path
prepend failures (found others) = found (failures ++ others)

-- `repr` of a text hangs on the Unicode tables.
module _ (repr : Text → Text) where
  abbrev pub suppression : Text → HunkLine → Text → Failure
  suppression path line token = record {
    file = path;
    line = elim line.new_line [ none ↦ none | some number ↦ some (pos number) ];
    code = codes "added-suppression";
    message = codes "added suppression " ++ (repr token ++ (codes " in " ++ path));
  }

  unfoldable pub line_failures : List Text → Text → HunkLine → List Failure
  unfolding contains
  line_failures suppressions path line = elim line.kind [
    | added ↦
        map (suppression path line) (filter (λ token. contains token line.content) suppressions)
    | removed ↦ []
    | context ↦ []
  ]

  unfoldable pub hunk_failures : List Text → Text → List HunkLine → List Failure
  unfolding line_failures
  hunk_failures suppressions path [] = []
  hunk_failures suppressions path (line ∷ lines) =
      line_failures suppressions path line ++ hunk_failures suppressions path lines

  unfoldable pub added_failures : List Text → Text → List (List HunkLine) → List Failure
  unfolding hunk_failures
  added_failures suppressions path [] = []
  added_failures suppressions path (hunk ∷ hunks) =
      hunk_failures suppressions path hunk ++ added_failures suppressions path hunks

  unfoldable pub config_failures : IntegrityPatterns → Bool → FileDiff → List Failure
  unfolding path_of file_matches
  config_failures patterns declared file =
      if not (is_empty patterns.gate_config)
        && (not declared && file_matches file patterns.gate_config)
      then record {
        file = path_of file;
        line = none;
        code = codes "gate-config-changed";
        message = codes "changed gate configuration: " ++ path_of file;
      }
        ∷ []
      else []

  unfoldable pub judge_files : IntegrityPatterns → List Text → List FileDiff → Judged
  unfolding config_failures added_failures
  judge_files patterns touches [] = found []
  judge_files patterns touches (file ∷ files) =
      let declared = matches_any touches (path_of file) in
      let rest = judge_files patterns touches files in
      if file.unreadable
      then (if declared then hidden (path_of file) else rest)
      else prepend
          (config_failures patterns declared file
            ++ added_failures patterns.suppressions (path_of file) file.hunks)
          rest

  unfoldable pub integrity_verdict : ℕ → Judged → GateResult
  integrity_verdict count (hidden path) =
      gate_result (codes "integrity") error []
        (codes "content hidden as binary, so added lines are unreadable: " ++ path)
  integrity_verdict count (found []) =
      gate_result (codes "integrity") pass []
        (decimal count ++ codes " changed files clean of suppression and gate-config edits")
  integrity_verdict count (found (failure ∷ failures)) =
      gate_result (codes "integrity") fail (failure ∷ failures) (
        decimal (length (failure ∷ failures))
        ++ (codes " integrity violation(s) across " ++ (decimal count ++ codes " changed files")))

  unfoldable pub judge_diff : IntegrityPatterns → List Text → Read (List FileDiff) → GateResult
  unfolding judge_files integrity_verdict
  judge_diff patterns touches (diff_error summary) =
      gate_result (codes "integrity") error [] summary
  judge_diff patterns touches (read files) =
      integrity_verdict (length files) (judge_files patterns touches files)

  unfoldable pub integrity_gate : Digits → Text → IntegrityPatterns → List Text → GateResult
  unfolding judge_diff parse_diff
  integrity_gate digits diff patterns touches =
      if is_empty patterns.suppressions && is_empty patterns.gate_config
      then gate_result (codes "integrity") skip [] (codes "no integrity patterns declared")
      else judge_diff patterns touches (parse_diff digits diff)
