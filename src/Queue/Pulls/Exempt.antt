-- ===== src/Queue/Pulls/Exempt.antt =====
-- When no open pull request refuses a candidate.
use saffron.Prelude.{
  ℕ, ◌≡◌, ◌≢◌, ◌↔◌, ◌⊎◌, true, List, [], ◌∷◌, Option, none, some, arith, Text, same_iff, Elem,
  elem_iff, All, is_empty, filter,
}
use saffron.Queue.Walk.{branch_of}
use saffron.Queue.Rows.{Candidate}
use saffron.Queue.Paths.{is_covered}
use saffron.Queue.Paths.Declared.{Covers, is_covered_iff}
use saffron.Queue.Pulls.{
  PullRequest, JsonField, present, absent, null, is_branch, is_one_of, changed_paths, find_branch,
  overlap_of, overlap_refusal, taken_by_another, open_pr_refusal,
}

is_branch_iff :
    (branch : Text) (field : JsonField) → (is_branch branch field ≡ true) ↔ (field ≡ present branch)
is_branch_iff branch absent = ground arith
is_branch_iff branch null = ground arith
is_branch_iff branch (present name) = ground (arith, same_iff branch name)

abbrev pub IsOneOf : List Text → JsonField → Type 0
IsOneOf branches (present name) = Elem name branches
IsOneOf branches absent = ⊥
IsOneOf branches null = ⊥

is_one_of_iff :
    (branches : List Text) (field : JsonField)
    → (is_one_of branches field ≡ true) ↔ IsOneOf branches field
is_one_of_iff branches absent = ground arith
is_one_of_iff branches null = ground arith
is_one_of_iff branches (present name) = elem_iff name branches

find_branch-none_iff :
    (branch : Text) (open_prs : List PullRequest)
    → (find_branch branch open_prs ≡ none) ↔ All (λ pr. pr.head_ref_name ≢ present branch) open_prs
unfolding find_branch
find_branch-none_iff branch [] = ground arith
find_branch-none_iff branch (pr ∷ open_prs) =
    ground (arith, find_branch-none_iff branch open_prs, is_branch_iff branch pr.head_ref_name)

-- No path of the list is covered.
uncovered_iff :
    (touches paths : List Text)
    → (is_empty (filter (λ path. is_covered path touches) paths) ≡ true)
      ↔ All (λ path. ¬ Covers touches path) paths
uncovered_iff touches [] = ground arith
uncovered_iff touches (path ∷ paths) =
    ground (arith, uncovered_iff touches paths, is_covered_iff path touches)

-- A pull request of the candidate's own branch or of an exempt one, or that changes nothing it
-- touches.
abbrev pub LetsPass : Text → List Text → List Text → PullRequest → Type 0
LetsPass own_branch exempt_branches touches pr =
    (pr.head_ref_name ≡ present own_branch)
    ⊎ (IsOneOf exempt_branches pr.head_ref_name
        ⊎ All (λ path. ¬ Covers touches path) (changed_paths pr.files))

overlap_refusal-none_iff :
    (own_branch : Text) (exempt_branches touches : List Text) (open_prs : List PullRequest)
    → (overlap_refusal own_branch exempt_branches touches open_prs ≡ none)
      ↔ All (LetsPass own_branch exempt_branches touches) open_prs
unfolding overlap_refusal overlap_of
overlap_refusal-none_iff own_branch exempt_branches touches [] = ground arith
overlap_refusal-none_iff own_branch exempt_branches touches (pr ∷ open_prs) = ground (
  arith,
  overlap_refusal-none_iff own_branch exempt_branches touches open_prs,
  is_branch_iff own_branch pr.head_ref_name,
  is_one_of_iff exempt_branches pr.head_ref_name,
  uncovered_iff touches (changed_paths pr.files),
)

taken_by_another-none_iff :
    (found : Option PullRequest) (task_id : Option ℕ)
    → (taken_by_another found task_id ≡ none) ↔ ((found ≡ none) ⊎ (task_id ≢ none))
taken_by_another-none_iff none none = ground arith
taken_by_another-none_iff none (some id) = ground arith
taken_by_another-none_iff (some pr) none = ground arith
taken_by_another-none_iff (some pr) (some id) = ground arith

abbrev pub PassesPulls : Candidate → List PullRequest → List Text → Type 0
PassesPulls candidate open_prs exempt_branches =
    (All (λ pr. pr.head_ref_name ≢ present (branch_of candidate.spec.id)) open_prs
      ⊎ (candidate.task_id ≢ none))
    × All (LetsPass (branch_of candidate.spec.id) exempt_branches candidate.spec.touches) open_prs

-- `open_pr_refusal` refuses nothing exactly if the candidate resumes a task or no open pull request
-- is on its branch, and every pull request of another branch that is not exempt changes no path that
-- its `touches` cover.
pub open_pr_refusal-none_iff :
    (candidate : Candidate) (open_prs : List PullRequest) (exempt_branches : List Text)
    → (open_pr_refusal candidate open_prs exempt_branches ≡ none)
      ↔ PassesPulls candidate open_prs exempt_branches
unfolding open_pr_refusal
open_pr_refusal-none_iff candidate open_prs exempt_branches =
    let own_branch = branch_of candidate.spec.id in
    ground (
      arith,
      taken_by_another-none_iff (find_branch own_branch open_prs) candidate.task_id,
      find_branch-none_iff own_branch open_prs,
      overlap_refusal-none_iff own_branch exempt_branches candidate.spec.touches open_prs,
    )
