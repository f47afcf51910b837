-- ===== src/Gates/Integrity/Verdict.antt =====
-- When the `integrity` gate passes and refuses, by the files of the diff.
use saffron.Prelude.{
  append-eq-nil, is_empty_iff, ◌≡◌, refl, ◌≢◌, ◌↔◌, ◌⊎◌, Bool, true, false, List, [], ◌∷◌, ◌++◌,
  map, Option, none, some, arith, Text, length, filter, All, Any, if◌then◌else◌,
}
use saffron.Policy.{IntegrityPatterns}
use saffron.Gates.Contract.{pass, skip, error}
use saffron.Gates.Scope.{matches_any}
use saffron.Gates.Scope.Verdict.{IsIn, matches_any_iff}
use saffron.Gates.Patch.{
  Kind, added, removed, context, HunkLine, FileDiff, path_of, matches_side, file_matches, Read,
  diff_error, read, Digits, parse_diff,
}
use saffron.Gates.Integrity.{
  contains, Judged, hidden, found, prepend, suppression, line_failures, hunk_failures,
  added_failures, config_failures, judge_files, integrity_verdict, judge_diff, integrity_gate,
}

-- One of the file's two paths is one that the patterns stand for.
abbrev pub IsAt : List Text → Option Text → Type 0
IsAt patterns none = ⊥
IsAt patterns (some path) = IsIn patterns path

-- No token stands in a line that the hunk adds.
abbrev pub IsQuiet : List Text → HunkLine → Type 0
IsQuiet suppressions line =
    line.kind ≡ added → All (λ token. contains token line.content ≡ false) suppressions

-- The file is in order: it is hidden and not declared, or it is readable, no gate configuration
-- unless declared, and adds no suppression.
abbrev pub IsSound : IntegrityPatterns → List Text → FileDiff → Type 0
IsSound patterns touches file =
    ((file.unreadable ≡ true) × (¬ IsIn touches (path_of file)))
    ⊎ ((file.unreadable ≡ false)
        × (((¬ IsIn touches (path_of file))
              → (¬ IsAt patterns.gate_config file.old_path)
                × (¬ IsAt patterns.gate_config file.new_path))
            × All (λ hunk. All (IsQuiet patterns.suppressions) hunk) file.hunks))

-- A hidden file inside the declared paths.
abbrev pub IsHidden : List Text → FileDiff → Type 0
IsHidden touches file = (file.unreadable ≡ true) × IsIn touches (path_of file)

matches_side_iff :
    (patterns : List Text) (path : Option Text)
    → (matches_side patterns path ≡ true) ↔ IsAt patterns path
matches_side_iff patterns none = ground arith
matches_side_iff patterns (some path) = matches_any_iff patterns path

no_patterns : (path : Option Text) → ¬ IsAt [] path
no_patterns none h = h
no_patterns (some path) h = h

module _ (repr : Text → Text) where
  tokens_iff :
      (path : Text) (line : HunkLine) (suppressions : List Text)
      → (map
            (suppression repr path line)
            (filter (λ token. contains token line.content) suppressions)
          ≡ [])
        ↔ All (λ token. contains token line.content ≡ false) suppressions
  tokens_iff path line [] = ground arith
  tokens_iff path line (token ∷ suppressions) = ground (arith, tokens_iff path line suppressions)

  line_failures_iff :
      (suppressions : List Text) (path : Text) (line : HunkLine)
      → (line_failures repr suppressions path line ≡ []) ↔ IsQuiet suppressions line
  unfolding line_failures
  line_failures_iff suppressions path line = cases line.kind refl
    where
      cases :
          (kind : Kind)
          → line.kind ≡ kind
          → (line_failures repr suppressions path line ≡ []) ↔ IsQuiet suppressions line
      cases added e = rw e (ground (arith, tokens_iff path line suppressions))
      cases removed e = rw e (ground arith)
      cases context e = rw e (ground arith)

  hunk_failures_iff :
      (suppressions : List Text) (path : Text) (hunk : List HunkLine)
      → (hunk_failures repr suppressions path hunk ≡ []) ↔ All (IsQuiet suppressions) hunk
  unfolding hunk_failures
  hunk_failures_iff suppressions path [] = ((λ h. tt), (λ h. refl))
  hunk_failures_iff suppressions path (line ∷ hunk) = ground (
    arith,
    append-eq-nil (line_failures repr suppressions path line)
        (hunk_failures repr suppressions path hunk),
    line_failures_iff suppressions path line,
    hunk_failures_iff suppressions path hunk,
  )

  added_failures_iff :
      (suppressions : List Text) (path : Text) (hunks : List (List HunkLine))
      → (added_failures repr suppressions path hunks ≡ [])
        ↔ All (λ hunk. All (IsQuiet suppressions) hunk) hunks
  unfolding added_failures
  added_failures_iff suppressions path [] = ((λ h. tt), (λ h. refl))
  added_failures_iff suppressions path (hunk ∷ hunks) = ground (
    arith,
    append-eq-nil (hunk_failures repr suppressions path hunk)
        (added_failures repr suppressions path hunks),
    hunk_failures_iff suppressions path hunk,
    added_failures_iff suppressions path hunks,
  )

  config_failures_iff :
      (patterns : IntegrityPatterns) (declared : Bool) (file : FileDiff)
      → (config_failures repr patterns declared file ≡ []) ↔ (
          (declared ≡ false)
          → (¬ IsAt patterns.gate_config file.old_path)
            × (¬ IsAt patterns.gate_config file.new_path))
  unfolding config_failures file_matches
  config_failures_iff patterns declared file = cases patterns.gate_config refl
    where
      cases :
          (gate_config : List Text)
          → patterns.gate_config ≡ gate_config
          → (config_failures repr patterns declared file ≡ []) ↔ (
              (declared ≡ false)
              → (¬ IsAt patterns.gate_config file.old_path)
                × (¬ IsAt patterns.gate_config file.new_path))
      cases [] e = rw e (ground (arith, no_patterns file.old_path, no_patterns file.new_path))
      cases (pattern ∷ gate_config) e = rw e (
          ground (
            arith,
            matches_side_iff (pattern ∷ gate_config) file.old_path,
            matches_side_iff (pattern ∷ gate_config) file.new_path,
          ))

  module _ (patterns : IntegrityPatterns) (touches : List Text) where
    -- What the loop finds.
    abbrev Finds : List FileDiff → Judged → Type 0
    Finds files (hidden path) =
        Any (IsHidden touches) files × (¬ All (IsSound patterns touches) files)
    Finds files (found failures) =
        (¬ Any (IsHidden touches) files) × ((failures ≡ []) ↔ All (IsSound patterns touches) files)

    Finds-cons :
        (file : FileDiff) (files : List FileDiff) (judged : Judged)
        → Finds files judged
        → Finds (file ∷ files) (
            if file.unreadable
            then (if matches_any touches (path_of file) then hidden (path_of file) else judged)
            else prepend
                (config_failures repr patterns (matches_any touches (path_of file)) file
                  ++ added_failures repr patterns.suppressions (path_of file) file.hunks)
                judged)
    Finds-cons file files (hidden path) f = ground (arith, matches_any_iff touches (path_of file))
    Finds-cons file files (found failures) f =
        let declared = matches_any touches (path_of file) in
        let first = config_failures repr patterns declared file in
        let second = added_failures repr patterns.suppressions (path_of file) file.hunks in
        ground (
          arith,
          matches_any_iff touches (path_of file),
          append-eq-nil first second,
          append-eq-nil (first ++ second) failures,
          config_failures_iff patterns declared file,
          added_failures_iff patterns.suppressions (path_of file) file.hunks,
        )

    judge_files-Finds :
        (files : List FileDiff) → Finds files (judge_files repr patterns touches files)
    unfolding judge_files
    judge_files-Finds [] = ground arith
    judge_files-Finds (file ∷ files) =
        Finds-cons file files (judge_files repr patterns touches files) (judge_files-Finds files)

    -- The diff was read, and its files are as told.
    abbrev pub ReadsAs : (List FileDiff → Type 0) → Read (List FileDiff) → Type 0
    ReadsAs P (diff_error summary) = ⊥
    ReadsAs P (read files) = P files

    judge_diff_iff :
        (outcome : Read (List FileDiff))
        → (((judge_diff repr patterns touches outcome).status ≡ pass)
            ↔ ReadsAs (λ files. All (IsSound patterns touches) files) outcome)
          × (((judge_diff repr patterns touches outcome).status ≢ error)
              ↔ ReadsAs (λ files. ¬ Any (IsHidden touches) files) outcome)
          × ((judge_diff repr patterns touches outcome).status ≢ skip)
    unfolding judge_diff integrity_verdict
    judge_diff_iff (diff_error summary) = ground arith
    judge_diff_iff (read files) =
        verdict (judge_files repr patterns touches files) (judge_files-Finds files)
      where
        verdict :
            (judged : Judged)
            → Finds files judged
            → (((integrity_verdict repr (length files) judged).status ≡ pass)
                ↔ All (IsSound patterns touches) files)
              × (((integrity_verdict repr (length files) judged).status ≢ error)
                  ↔ (¬ Any (IsHidden touches) files))
              × ((integrity_verdict repr (length files) judged).status ≢ skip)
        verdict (hidden path) f = ground arith
        verdict (found []) f = ground arith
        verdict (found (failure ∷ failures)) f = ground arith

  -- Something is declared that the gate looks for.
  abbrev pub HasPatterns : IntegrityPatterns → Type 0
  HasPatterns patterns = (patterns.suppressions ≢ []) ⊎ (patterns.gate_config ≢ [])

  -- The integrity gate passes exactly if patterns are declared, the diff can be read, and every
  -- file of it is in order: hidden and outside `touches`, or readable, with no gate configuration
  -- among its paths unless `touches` covers it, and with no suppression in an added line, covered
  -- or not.
  pub integrity_gate-pass_iff :
      (digits : Digits) (diff : Text) (patterns : IntegrityPatterns) (touches : List Text)
      → ((integrity_gate repr digits diff patterns touches).status ≡ pass) ↔ (
          HasPatterns patterns
          × ReadsAs patterns touches
              (λ files. All (IsSound patterns touches) files)
              (parse_diff digits diff))
  unfolding integrity_gate
  integrity_gate-pass_iff digits diff patterns touches = ground (
    arith,
    is_empty_iff patterns.suppressions,
    is_empty_iff patterns.gate_config,
    judge_diff_iff patterns touches (parse_diff digits diff),
  )

  -- Where patterns are declared the integrity gate judges (it is no error) exactly if the diff can
  -- be read and no file inside `touches` is hidden, and it skips exactly if none are declared.
  pub integrity_gate-error_iff :
      (digits : Digits) (diff : Text) (patterns : IntegrityPatterns) (touches : List Text)
      → (HasPatterns patterns
          → ((integrity_gate repr digits diff patterns touches).status ≢ error)
            ↔ ReadsAs patterns touches
                (λ files. ¬ Any (IsHidden touches) files)
                (parse_diff digits diff))
        × (((integrity_gate repr digits diff patterns touches).status ≡ skip)
            ↔ (¬ HasPatterns patterns))
  unfolding integrity_gate
  integrity_gate-error_iff digits diff patterns touches = ground (
    arith,
    is_empty_iff patterns.suppressions,
    is_empty_iff patterns.gate_config,
    judge_diff_iff patterns touches (parse_diff digits diff),
  )
