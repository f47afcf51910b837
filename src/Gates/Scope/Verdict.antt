-- ===== src/Gates/Scope/Verdict.antt =====
-- When the scope gate passes, fails, skips and refuses.
use saffron.Prelude.{
  ◌≡◌, refl, ◌≢◌, ◌↔◌, ◌⊎◌, Bool, true, not, ◌&&◌, List, [], ◌∷◌, ◌++◌, map, Option, none, some,
  arith, Text, codes, Elem, join, starts_with, is_empty, filter, All, Any, any_iff,
}
use saffron.Gates.Contract.{Failure, pass, fail, error, split_lines}
use saffron.Gates.Glob.{matches}
use saffron.Gates.Glob.Language.{Glob, matches_iff}
use saffron.Gates.Scope.{
  is_header, is_unreadable, first_unreadable, header_fault, matches_any, failure_at, denials,
  judge_paths, scope_gate,
}

-- A path that one of the patterns stands for.
abbrev pub IsIn : List Text → Text → Type 0
IsIn patterns path = Any (Glob path) patterns

pub matches_any_iff :
    (patterns : List Text) (path : Text) → (matches_any patterns path ≡ true) ↔ IsIn patterns path
matches_any_iff patterns path = any_iff (matches path) (Glob path) (matches_iff path) patterns

-- What the gate asks of one changed path.
abbrev pub IsAllowed : List Text → List Text → List Text → Text → Type 0
IsAllowed touches forbidden protected path =
    IsIn touches path × (¬ IsIn forbidden path) × (¬ IsIn protected path)

module _ (touches forbidden protected : List Text) where
  clean_iff :
      (changed_files : List Text)
      → ((is_empty (filter (λ path. not (matches_any touches path)) changed_files)
            && (is_empty (filter (matches_any forbidden) changed_files)
                && is_empty (filter (matches_any protected) changed_files)))
          ≡ true)
        ↔ All (IsAllowed touches forbidden protected) changed_files
  clean_iff [] = ((λ h. tt), (λ h. refl))
  clean_iff (path ∷ changed_files) = ground (
    arith,
    matches_any_iff touches path,
    matches_any_iff forbidden path,
    matches_any_iff protected path,
    clean_iff changed_files,
  )

-- Every line of the diff that begins a file's block has the header that the host pinned.
abbrev pub IsReadable : Option Text → Type 0
IsReadable none = Unit
IsReadable (some diff) =
    All (λ line. starts_with (codes "diff --git ") line ≡ true → is_header line ≡ true)
      (split_lines diff)

first_unreadable_iff :
    (lines : List Text)
    → (first_unreadable lines ≡ none)
      ↔ All (λ line. starts_with (codes "diff --git ") line ≡ true → is_header line ≡ true) lines
unfolding first_unreadable is_unreadable
first_unreadable_iff [] = ((λ h. tt), (λ h. refl))
first_unreadable_iff (line ∷ lines) = ground (arith, first_unreadable_iff lines)

header_fault_iff : (diff : Option Text) → (header_fault diff ≡ none) ↔ IsReadable diff
unfolding header_fault
header_fault_iff none = ((λ h. tt), (λ h. refl))
header_fault_iff (some diff) = first_unreadable_iff (split_lines diff)

judge_paths-pass_iff :
    (changed_files touches forbidden protected : List Text)
    → ((judge_paths changed_files touches forbidden protected).status ≡ pass)
      ↔ ((touches ≢ []) × All (IsAllowed touches forbidden protected) changed_files)
unfolding judge_paths
judge_paths-pass_iff changed_files [] forbidden protected = ground arith
judge_paths-pass_iff changed_files (t ∷ touches) forbidden protected =
    ground (arith, clean_iff (t ∷ touches) forbidden protected changed_files)

-- The scope gate passes exactly if every file header of the diff is readable, the spec declares
-- `touches`, and every changed path is matched by a pattern of `touches` and by no pattern of
-- `forbidden` or `protected`.
pub scope_gate-pass_iff :
    (changed_files touches : List Text) (diff : Option Text) (forbidden protected : List Text)
    → ((scope_gate changed_files touches diff forbidden protected).status ≡ pass) ↔ (
        IsReadable diff
        × (touches ≢ [])
        × All (IsAllowed touches forbidden protected) changed_files)
unfolding scope_gate
scope_gate-pass_iff changed_files touches diff forbidden protected =
    ground
      (arith, header_fault_iff diff, judge_paths-pass_iff changed_files touches forbidden protected)

-- The scope gate is an error exactly if some file header of the diff is unreadable, and then it
-- reports no failure.
pub scope_gate-error_iff :
    (changed_files touches : List Text) (diff : Option Text) (forbidden protected : List Text)
    → (((scope_gate changed_files touches diff forbidden protected).status ≡ error)
        ↔ (¬ IsReadable diff))
      × ((scope_gate changed_files touches diff forbidden protected).status ≡ error
          → (scope_gate changed_files touches diff forbidden protected).failures ≡ [])
unfolding scope_gate judge_paths
scope_gate-error_iff changed_files [] diff forbidden protected =
    ground (arith, header_fault_iff diff)
scope_gate-error_iff changed_files (t ∷ touches) diff forbidden protected =
    ground (arith, header_fault_iff diff)

-- A failure of the list is about the path.
abbrev pub Names : Text → List Failure → Type 0
Names path failures = Any (λ failure. path ≡ failure.file) failures

Names-append :
    (path : Text) (xs ys : List Failure) → Names path (xs ++ ys) ↔ (Names path xs ⊎ Names path ys)
Names-append path [] ys = ground arith
Names-append path (x ∷ xs) ys = ground (arith, Names-append path xs ys)

Names-filter :
    (path code message : Text) (test : Text → Bool) (paths : List Text)
    → Names path (map (failure_at code message) (filter test paths))
      ↔ (Elem path paths × (test path ≡ true))
Names-filter path code message test [] = ground arith
Names-filter path code message test (p ∷ paths) =
    ground (arith, Names-filter path code message test paths)

denials_iff :
    (path : Text) (changed_files touches forbidden protected : List Text)
    → Names path (denials changed_files touches forbidden protected)
      ↔ (Elem path changed_files × (¬ IsAllowed touches forbidden protected path))
unfolding denials
denials_iff path changed_files touches forbidden protected =
    let outside =
      failure_at (codes "out-of-scope") (codes "outside touches: " ++ join (codes ", ") touches) in
    let denied =
      failure_at (codes "forbidden")
        (codes "denied by this spec's forbidden list: " ++ join (codes ", ") forbidden) in
    let kept =
      failure_at (codes "protected")
        (codes "denied by the repo's protected list: " ++ join (codes ", ") protected) in
    let first = filter (λ p. not (matches_any touches p)) changed_files in
    let second = filter (matches_any forbidden) changed_files in
    let third = filter (matches_any protected) changed_files in
    ground (
      arith,
      Names-append path (map outside first) (map denied second ++ map kept third),
      Names-append path (map denied second) (map kept third),
      Names-filter path (codes "out-of-scope")
          (codes "outside touches: " ++ join (codes ", ") touches)
          (λ p. not (matches_any touches p)) changed_files,
      Names-filter path (codes "forbidden")
          (codes "denied by this spec's forbidden list: " ++ join (codes ", ") forbidden)
          (matches_any forbidden) changed_files,
      Names-filter path (codes "protected")
          (codes "denied by the repo's protected list: " ++ join (codes ", ") protected)
          (matches_any protected) changed_files,
      matches_any_iff touches path,
      matches_any_iff forbidden path,
      matches_any_iff protected path,
    )

-- When the scope gate fails, the paths that its failures name are exactly the changed paths that
-- are outside `touches`, or inside `forbidden` or `protected`.
pub scope_gate-Names :
    (path : Text) (changed_files touches : List Text) (diff : Option Text)
    (forbidden protected : List Text)
    → (scope_gate changed_files touches diff forbidden protected).status ≡ fail
    → Names path (scope_gate changed_files touches diff forbidden protected).failures
      ↔ (Elem path changed_files × (¬ IsAllowed touches forbidden protected path))
unfolding scope_gate judge_paths
scope_gate-Names path changed_files [] diff forbidden protected h = ground arith
scope_gate-Names path changed_files (t ∷ touches) diff forbidden protected h =
    ground (arith, denials_iff path changed_files (t ∷ touches) forbidden protected)
