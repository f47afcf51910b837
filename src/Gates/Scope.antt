-- ===== src/Gates/Scope.antt =====
-- `scope_gate` of saffron/gates/core/scope.py: changed files inside `touches`, and in neither
-- deny list.
pub mod Verdict
use saffron.Prelude.{
  ℕ, suc, Bool, true, false, not, ◌&&◌, ◌||◌, List, [], ◌∷◌, ◌++◌, map, Option, none, some, Text,
  codes, starts_with, join, decimal, length, take, drop, is_empty, any, filter, ◌==◌, if◌then◌else◌,
}
use saffron.Gates.Contract.{
  Failure, GateResult, gate_result, pass, fail, skip, error, split_lines, ends_with, drop_last,
}
use saffron.Gates.Glob.{matches}

-- The separator stands somewhere with a character before it and one behind it: `.+ b/.+`.
unfoldable pub has_inner : Text → Text → Bool
has_inner separator [] = false
has_inner separator (c ∷ s) =
    (starts_with separator s && not (is_empty (drop (length separator) s))) || has_inner separator s

abbrev pub quote : ℕ
quote = b'"'

-- `_HEADER.match(line)`, on a line without line feeds.
unfoldable pub is_header : Text → Bool
unfolding has_inner starts_with
is_header line =
    let plain = codes "diff --git a/" in
    let quoted = codes "diff --git \"a/" in
    (starts_with plain line && has_inner (codes " b/") (drop (length plain) line))
    || (starts_with quoted line
        && (ends_with quote (drop (length quoted) line)
            && has_inner (codes "\" \"b/") (drop_last (drop (length quoted) line))))

unfoldable pub is_unreadable : Text → Bool
unfolding is_header
is_unreadable line = starts_with (codes "diff --git ") line && not (is_header line)

-- The first header that the gate cannot read.
unfoldable pub first_unreadable : List Text → Option Text
unfolding is_unreadable
first_unreadable [] = none
first_unreadable (line ∷ lines) = if is_unreadable line then some line else first_unreadable lines

abbrev pub matches_any : List Text → Text → Bool
matches_any patterns path = any (matches path) patterns

abbrev pub failure_at : Text → Text → Text → Failure
failure_at code message file = record { file = file; line = none; code = code; message = message }

unfoldable pub denials : List Text → List Text → List Text → List Text → List Failure
denials changed_files touches forbidden protected =
    map (failure_at (codes "out-of-scope") (codes "outside touches: " ++ join (codes ", ") touches))
      (filter (λ path. not (matches_any touches path)) changed_files)
    ++ (map
          (failure_at (codes "forbidden")
            (codes "denied by this spec's forbidden list: " ++ join (codes ", ") forbidden))
          (filter (matches_any forbidden) changed_files)
        ++ map
            (failure_at (codes "protected")
              (codes "denied by the repo's protected list: " ++ join (codes ", ") protected))
            (filter (matches_any protected) changed_files))

unfoldable pub denial_summary : List Text → List Text → List Text → List Text → List Failure → Text
denial_summary changed_files escaped forbidden_hits protected_hits failures =
    if is_empty forbidden_hits && is_empty protected_hits
    then decimal (length escaped)
      ++ (codes " of "
          ++ (decimal (length changed_files) ++ codes " changed files outside touches"))
    else decimal (length failures)
      ++ (codes " denial(s) across "
          ++ (decimal (length changed_files)
              ++ (codes " changed files: "
                  ++ (decimal (length escaped)
                      ++ (codes " outside touches, "
                          ++ (decimal (length forbidden_hits)
                              ++ (codes " forbidden, "
                                  ++ (decimal (length protected_hits) ++ codes " protected"))))))))

-- The part of the gate behind the check of the diff's headers.
unfoldable pub judge_paths : List Text → List Text → List Text → List Text → GateResult
unfolding denials
judge_paths changed_files [] forbidden protected =
    gate_result (codes "scope") skip [] (codes "no touches declared")
judge_paths changed_files touches forbidden protected =
    let escaped = filter (λ path. not (matches_any touches path)) changed_files in
    let forbidden_hits = filter (matches_any forbidden) changed_files in
    let protected_hits = filter (matches_any protected) changed_files in
    let failures = denials changed_files touches forbidden protected in
    if is_empty escaped && (is_empty forbidden_hits && is_empty protected_hits)
    then gate_result (codes "scope") pass []
        (decimal (length changed_files) ++ codes " changed files within touches")
    else gate_result (codes "scope") fail failures
        (denial_summary changed_files escaped forbidden_hits protected_hits failures)

-- `diff` is absent for a caller that has none.
unfoldable pub header_fault : Option Text → Option Text
unfolding first_unreadable
header_fault none = none
header_fault (some diff) = first_unreadable (split_lines diff)

unfoldable pub scope_gate : List Text → List Text → Option Text → List Text → List Text → GateResult
unfolding judge_paths header_fault
scope_gate changed_files touches diff forbidden protected = elim (header_fault diff) [
  | none ↦ judge_paths changed_files touches forbidden protected
  | some line ↦
      gate_result (codes "scope") error []
        (codes "diff prefixes are not a/ b/, so paths are unreadable: " ++ take 120 line)
]
