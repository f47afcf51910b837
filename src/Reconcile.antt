-- ===== src/Reconcile.antt =====
-- saffron/reconcile.py: what a repository's tasks become of the answers that GitHub gives. What `gh`
-- answered about a task's pull request and its newest re-gate in the ledger are parameters.
pub mod States
pub mod Moves
pub mod Again
use saffron.Prelude.{
  ℕ, Bool, true, false, not, ◌&&◌, ◌||◌, List, [], ◌∷◌, ◌++◌, map, Option, none, some, Text, codes,
  same, elem, is_empty, if◌then◌else◌,
}

-- A row of `ledger.tasks_by_repo`. A NULL column is `none`.
pub record TrackedTask : Type 0 where
  pub task_id : ℕ
  pub spec_id : Text
  pub state : Text
  pub pr_url : Option Text
  pub pushed_sha : Option Text
  pub merged_head_sha : Option Text

-- A pull request's `state`, `reviewDecision`, `isDraft` and `headRefOid`: `none` where the answer
-- has no such text, or no Boolean.
pub record PullStatus : Type 0 where
  pub state : Option Text
  pub review_decision : Option Text
  pub is_draft : Option Bool
  pub head_ref_oid : Option Text

pub record Regate : Type 0 where
  pub head_sha : Text
  pub new_failures : ℕ

unfoldable pub pr_pending_states : List Text
pr_pending_states = codes "READY_FOR_REVIEW" ∷ codes "APPROVED" ∷ codes "CHANGES_REQUESTED" ∷ []

unfoldable pub merge_only_states : List Text
merge_only_states = codes "EXHAUSTED" ∷ codes "NOT_IMPLEMENTED" ∷ codes "REBUTTAL_UNJUDGED" ∷ []

unfoldable pub in_flight_states : List Text
in_flight_states =
    codes "DRAFT"
    ∷ codes "QUEUED"
    ∷ codes "DIAGNOSING"
    ∷ codes "IMPLEMENTING"
    ∷ codes "GATING"
    ∷ codes "REPAIRING"
    ∷ codes "REVIEWING"
    ∷ codes "REBUTTING"
    ∷ []

-- The lists of `ReconcileResult` that `_BUCKET` names.
pub data Bucket : Type 0 where
  approved merged rejected changes_requested : Bucket

unfoldable pub bucket_of : Text → Option Bucket
bucket_of state =
    if same state (codes "APPROVED")
    then some approved
    else if same state (codes "MERGED")
    then some merged
    else if same state (codes "REJECTED")
    then some rejected
    else if same state (codes "CHANGES_REQUESTED")
    then some changes_requested
    else none

-- One line of the report: a bucket with its task, a pull request that gave no answer, a moved head
-- with both shas, a re-gate, or a task that a dead scan left behind. A list of `ReconcileResult` has
-- the lines of its own kind, in this order.
pub data Report : Type 0 where
  moved : Bucket → ℕ → Report
  unasked orphaned : ℕ → Report
  head_moved : ℕ → Text → Text → Report
  regated : ℕ → Text → ℕ → Report

abbrev pub is_value : Text → Option Text → Bool
is_value text none = false
is_value text (some value) = same text value

abbrev pub is_false : Option Bool → Bool
is_false (some false) = true
is_false _ = false

-- `_next_state`
unfoldable pub next_state : PullStatus → Option Text
next_state pr =
    if is_value (codes "MERGED") pr.state
    then some (codes "MERGED")
    else if is_value (codes "CLOSED") pr.state
    then some (codes "REJECTED")
    else if is_value (codes "OPEN") pr.state
        && is_value (codes "CHANGES_REQUESTED") pr.review_decision
    then some (codes "CHANGES_REQUESTED")
    else if is_value (codes "OPEN") pr.state && is_false pr.is_draft
    then some (codes "APPROVED")
    else none

-- `column or ""`
abbrev pub or_empty : Option Text → Text
or_empty none = []
or_empty (some text) = text

-- Whether the loop asks about the row.
unfoldable pub is_asked : TrackedTask → Bool
unfolding pr_pending_states merge_only_states
is_asked row =
    not (is_empty (or_empty row.pr_url))
    && (elem row.state pr_pending_states || elem row.state merge_only_states)

-- The state that an answer writes, with its bucket, if it writes one.
unfoldable pub settle : Text → Option Text → Option (Text × Bucket)
unfolding bucket_of merge_only_states
settle state none = none
settle state (some candidate) =
    let bucketed : Option (Text × Bucket) = elim (bucket_of candidate) [
      | some bucket ↦ some (candidate, bucket)
      | none ↦ none
    ] in
    if (not (elem state merge_only_states) || same candidate (codes "MERGED"))
      && not (same candidate state)
    then bucketed
    else none

-- `ledger.record_merged_head`, where the answer named a head.
abbrev pub recorded_head : Text → Text → Option Text → Option Text
recorded_head new_state head old =
    if same new_state (codes "MERGED") && not (is_empty head) then some head else old

abbrev pub write_state : TrackedTask → Text → Option (Text × Bucket) → TrackedTask
write_state row head none = row
write_state row head (some (new_state, bucket)) = record row {
  state = new_state;
  merged_head_sha = recorded_head new_state head row.merged_head_sha;
}

abbrev pub moved_report : ℕ → Option (Text × Bucket) → List Report
moved_report id none = []
moved_report id (some (new_state, bucket)) = moved bucket id ∷ []

unfoldable pub head_report : TrackedTask → Text → List Report
head_report row head =
    let pushed = or_empty row.pushed_sha in
    if not (is_empty head) && (not (is_empty pushed) && not (same head pushed))
    then head_moved row.task_id pushed head ∷ []
    else []

abbrev pub regate_report : ℕ → Option Text → Option Regate → List Report
regate_report id head none = []
regate_report id none (some regate) = []
regate_report id (some head) (some regate) =
    if same head regate.head_sha then regated id head regate.new_failures ∷ [] else []

-- The body of the loop for a row that is asked: the row as the ledger then has it, and the report.
abbrev pub apply_answer :
    Option PullStatus → Option Regate → TrackedTask → TrackedTask × List Report
apply_answer none regate row = (row, unasked row.task_id ∷ [])
apply_answer (some pr) regate row =
    let head = or_empty pr.head_ref_oid in
    let settled = settle row.state (next_state pr) in
    (
      write_state row head settled,
      head_report row head
          ++ (regate_report row.task_id pr.head_ref_oid regate ++ moved_report row.task_id settled),
    )

abbrev pub land : TrackedTask → TrackedTask × List Report
land row = (record row { state = codes "MERGED" }, moved merged row.task_id ∷ [])

-- What the loop does to one row.
unfoldable pub reconcile_row :
    Option PullStatus → Option Regate → TrackedTask → TrackedTask × List Report
unfolding is_asked settle next_state head_report
reconcile_row answer regate row =
    if not (is_asked row)
    then (row, [])
    else if not (is_empty (or_empty row.merged_head_sha))
    then land row
    else apply_answer answer regate row

-- What GitHub says of each task's pull request, and the ledger of its newest re-gate, by `task_id`.
pub record Answers : Type 0 where
  pub pull : ℕ → Option PullStatus
  pub regate : ℕ → Option Regate

abbrev pub is_selected : Option Text → TrackedTask → Bool
is_selected none row = true
is_selected (some spec_id) row = same row.spec_id spec_id

-- The first loop: every row as it was and as it is after, and the report.
unfoldable pub reconcile_rows :
    Answers → Option Text → List TrackedTask → List (TrackedTask × TrackedTask) × List Report
unfolding reconcile_row
reconcile_rows answers spec_id [] = ([], [])
reconcile_rows answers spec_id (row ∷ rows) =
    let (rest, later) = reconcile_rows answers spec_id rows in
    let (after, report) =
      reconcile_row (answers.pull row.task_id) (answers.regate row.task_id) row in
    if is_selected spec_id row
    then ((row, after) ∷ rest, report ++ later)
    else ((row, row) ∷ rest, later)

-- The second loop, which reads the states that the first one found.
unfoldable pub stamp_rows :
    Option Text → List (TrackedTask × TrackedTask) → List TrackedTask × List Report
unfolding in_flight_states
stamp_rows spec_id [] = ([], [])
stamp_rows spec_id ((before, after) ∷ rows) =
    let (rest, later) = stamp_rows spec_id rows in
    if is_selected spec_id before && elem before.state in_flight_states
    then (record after { state = codes "ORPHANED" } ∷ rest, orphaned after.task_id ∷ later)
    else (after ∷ rest, later)

abbrev pub rows_after : List (TrackedTask × TrackedTask) → List TrackedTask
rows_after rows = map (λ (r : TrackedTask × TrackedTask). r.1) rows

-- `reconcile`: the ledger's rows after it, and its report in the order of the loops.
unfoldable pub reconcile :
    Answers → Bool → Option Text → List TrackedTask → List TrackedTask × List Report
unfolding reconcile_rows stamp_rows
reconcile answers stamp_orphaned spec_id ledger =
    let (rows, report) = reconcile_rows answers spec_id ledger in
    let (stamped, later) = stamp_rows spec_id rows in
    if stamp_orphaned then (stamped, report ++ later) else (rows_after rows, report)
