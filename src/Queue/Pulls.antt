-- ===== src/Queue/Pulls.antt =====
-- `open_pr_refusal` of saffron/scheduler.py. What `gh` answered is a parameter: the pull requests
-- that `_open_prs` keeps of it.
pub mod Exempt
use saffron.Prelude.{
  ℕ, Bool, true, false, not, ◌&&◌, ◌||◌, List, [], ◌∷◌, ◌++◌, Option, none, some, Text, codes, same,
  elem, filter, is_empty, join, decimal, take, length, ltb, if◌then◌else◌,
}
use saffron.Intake.{Spec}
use saffron.Queue.Walk.{branch_of}
use saffron.Queue.Rows.{Candidate, RefusalKind, open_pr_on_spec, open_pr_overlap}
use saffron.Queue.Paths.{is_covered, comma}

-- A key of a JSON object that holds a text if it is there and not null.
pub data JsonField : Type 0 where
  absent null : JsonField
  present : Text → JsonField

-- An element of `files`: no object, an object with no `path`, one with it.
pub data ChangedFile : Type 0 where
  no_object unnamed : ChangedFile
  named : Text → ChangedFile

-- `files` is empty where the key is absent or null.
pub record PullRequest : Type 0 where
  pub head_ref_name : JsonField
  pub url : JsonField
  pub files : List ChangedFile

abbrev pub is_branch : Text → JsonField → Bool
is_branch branch (present name) = same branch name
is_branch branch _ = false

abbrev pub is_one_of : List Text → JsonField → Bool
is_one_of branches (present name) = elem name branches
is_one_of branches _ = false

-- `pr.get("headRefName", "")` in an f-string
abbrev pub shown : JsonField → Text
shown absent = []
shown null = codes "None"
shown (present name) = name

-- `pr.get("url") or default`
abbrev pub url_or : JsonField → Text → Text
url_or (present []) default = default
url_or (present (c ∷ url)) default = c ∷ url
url_or _ default = default

abbrev pub changed_paths : List ChangedFile → List Text
changed_paths [] = []
changed_paths (no_object ∷ files) = changed_paths files
changed_paths (unnamed ∷ files) = [] ∷ changed_paths files
changed_paths (named path ∷ files) = path ∷ changed_paths files

-- `next((pr for pr in open_prs if …), None)`
unfoldable pub find_branch : Text → List PullRequest → Option PullRequest
find_branch branch [] = none
find_branch branch (pr ∷ open_prs) =
    let rest = find_branch branch open_prs in
    if is_branch branch pr.head_ref_name then some pr else rest

unfoldable pub overlap_of : List Text → PullRequest → List Text
overlap_of touches pr = filter (λ path. is_covered path touches) (changed_paths pr.files)

unfoldable pub overlap_reason : PullRequest → List Text → Text
overlap_reason pr overlap =
    codes "touches overlaps open pull request "
    ++ (url_or pr.url (shown pr.head_ref_name)
        ++ (codes "'s changed files: "
            ++ (join comma (take 3 overlap)
                ++ (if ltb 3 (length overlap)
                    then codes ", … (" ++ (decimal (length overlap) ++ codes " files)")
                    else []))))

unfoldable pub overlap_refusal : Text → List Text → List Text → List PullRequest → Option Text
unfolding overlap_of overlap_reason
overlap_refusal own_branch exempt_branches touches [] = none
overlap_refusal own_branch exempt_branches touches (pr ∷ open_prs) =
    let rest = overlap_refusal own_branch exempt_branches touches open_prs in
    if is_branch own_branch pr.head_ref_name || is_one_of exempt_branches pr.head_ref_name
    then rest
    else if not (is_empty (overlap_of touches pr))
    then some (overlap_reason pr (overlap_of touches pr))
    else rest

-- `same_spec_pr is not None and candidate.task_id is None`
abbrev pub taken_by_another : Option PullRequest → Option ℕ → Option PullRequest
taken_by_another (some pr) none = some pr
taken_by_another _ _ = none

unfoldable pub open_pr_refusal :
    Candidate → List PullRequest → List Text → Option (RefusalKind × Text)
unfolding find_branch overlap_refusal branch_of
open_pr_refusal candidate open_prs exempt_branches =
    let own_branch = branch_of candidate.spec.id in
    let overlapping : Option (RefusalKind × Text) =
      elim (overlap_refusal own_branch exempt_branches candidate.spec.touches open_prs) [
        | some reason ↦ some (open_pr_overlap, reason)
        | none ↦ none
      ] in
    elim (taken_by_another (find_branch own_branch open_prs) candidate.task_id) [
      | some pr ↦ some (
        open_pr_on_spec,
        codes "an open pull request from another task already targets this spec: "
            ++ url_or pr.url own_branch,
      )
      | none ↦ overlapping
    ]
