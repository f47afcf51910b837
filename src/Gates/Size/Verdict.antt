-- ===== src/Gates/Size/Verdict.antt =====
-- When the `size` gate passes, fails and refuses.
use saffron.Prelude.{
  is_empty_iff, ℕ, ◌+◌, ◌≤◌, ◌≡◌, ◌≢◌, ◌↔◌, ◌⊎◌, Bool, true, false, not, List, [], ◌∷◌, none, arith,
  Text, any_iff, filter, Any,
}
use saffron.Gates.Contract.{CharClasses, pass, skip, error}
use saffron.Gates.Glob.{matches}
use saffron.Gates.Glob.Language.{Glob}
use saffron.Gates.Scope.Verdict.{IsIn}
use saffron.Gates.Size.{
  TokenCount, total, ceiling_of, unreadable_paths, declared, under_test_path, first_where,
  unreadable_declared_path, size_verdict, token_counts, changed_lines, measure, size_gate,
}
use saffron.Gates.Glob.Language.{matches_iff}

-- Inside the declared paths: of a spec that declares none, every path is.
abbrev pub IsDeclared : List Text → Text → Type 0
IsDeclared touches path = (touches ≡ []) ⊎ IsIn touches path

declared_iff :
    (touches : List Text) (path : Text) → (declared touches path ≡ true) ↔ IsDeclared touches path
unfolding declared
declared_iff touches path =
    ground
      (arith, is_empty_iff touches, any_iff (matches path) (Glob path) (matches_iff path) touches)

first_where_iff :
    (test : Text → Bool) (P : Text → Type 0)
    → ((path : Text) → (test path ≡ true) ↔ P path)
    → (paths : List Text) → (first_where test paths ≢ none) ↔ Any P paths
unfolding first_where
first_where_iff test P h [] = ground arith
first_where_iff test P h (path ∷ paths) = ground (arith, h path, first_where_iff test P h paths)

-- A file whose content the diff hides is inside the declared paths.
abbrev pub HidesDeclared : Text → List Text → Type 0
HidesDeclared diff touches = Any (IsDeclared touches) (unreadable_paths diff)

unreadable_declared_path_iff :
    (diff : Text) (touches : List Text)
    → (unreadable_declared_path diff touches ≢ none) ↔ HidesDeclared diff touches
unfolding unreadable_declared_path
unreadable_declared_path_iff diff touches =
    first_where_iff (declared touches) (IsDeclared touches) (declared_iff touches)
      (unreadable_paths diff)

-- The tokens of the files that the gate counts.
abbrev pub counted : List Text → List TokenCount → ℕ
counted test_paths counts =
    total (filter (λ entry. not (under_test_path test_paths entry.path)) counts)

total-filter :
    (test : TokenCount → Bool) (counts : List TokenCount)
    → total counts ≡ total (filter test counts) + total (filter (λ entry. not (test entry)) counts)
unfolding total
total-filter test [] = omega arith
total-filter test (entry ∷ counts) = ground (arith, total-filter test counts)

module _ (classes : CharClasses) where
  measure_lem :
      (diff spec_type : Text) (test_paths : List Text)
      → (((measure classes diff spec_type test_paths).status ≡ pass)
          ↔ (counted test_paths (token_counts classes diff) ≤ ceiling_of spec_type))
        × ((measure classes diff spec_type test_paths).status ≢ skip)
        × ((measure classes diff spec_type test_paths).status ≢ error)
  unfolding measure size_verdict changed_lines
  measure_lem diff spec_type test_paths = ground (
    arith,
    total-filter (λ entry. under_test_path test_paths entry.path) (token_counts classes diff),
  )

  -- The size gate passes exactly if it need not refuse (it does not block, or no declared file is
  -- hidden) and the tokens of the files outside the test paths are at most the spec type's
  -- ceiling.
  pub size_gate-pass_iff :
      (diff spec_type : Text) (touches : List Text) (blocking : Bool) (test_paths : List Text)
      → ((size_gate classes diff spec_type touches blocking test_paths).status ≡ pass) ↔ (
          ((blocking ≡ false) ⊎ (¬ HidesDeclared diff touches))
          × (counted test_paths (token_counts classes diff) ≤ ceiling_of spec_type))
  unfolding size_gate
  size_gate-pass_iff diff spec_type touches blocking test_paths =
      ground
        (arith, measure_lem diff spec_type test_paths, unreadable_declared_path_iff diff touches)

  -- The size gate is an error exactly if it blocks and a file inside the declared paths is hidden;
  -- it never skips.
  pub size_gate-error_iff :
      (diff spec_type : Text) (touches : List Text) (blocking : Bool) (test_paths : List Text)
      → (((size_gate classes diff spec_type touches blocking test_paths).status ≡ error)
          ↔ ((blocking ≡ true) × HidesDeclared diff touches))
        × ((size_gate classes diff spec_type touches blocking test_paths).status ≢ skip)
  unfolding size_gate
  size_gate-error_iff diff spec_type touches blocking test_paths =
      ground
        (arith, measure_lem diff spec_type test_paths, unreadable_declared_path_iff diff touches)
