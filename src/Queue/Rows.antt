-- ===== src/Queue/Rows.antt =====
-- What saffron/scheduler.py reads and returns: the ledger's task rows with the sets of states,
-- `StackBase`, `Candidate`, `RefusalKind` and `Refusal`.
use saffron.Prelude.{
  ℕ, Bool, false, not, ◌&&◌, List, [], ◌∷◌, Option, none, some, Text, codes, same, elem, filter,
}
use saffron.Intake.{Spec}

-- A row of the ledger's task queries. A NULL column is `none`.
pub record TaskRow : Type 0 where
  pub task_id : ℕ
  pub spec_id : Text
  pub spec_sha : Text
  pub state : Text
  pub branch : Option Text
  pub pushed_sha : Option Text
  pub pushed_in_state : Option Text
  pub pr_url : Option Text

unfoldable pub done_states : List Text
done_states =
    codes "READY_FOR_REVIEW"
    ∷ codes "APPROVED"
    ∷ codes "MERGE_TRAIN"
    ∷ codes "MERGED"
    ∷ codes "MERGE_FAILED"
    ∷ codes "REJECTED"
    ∷ codes "EXHAUSTED"
    ∷ codes "NOT_IMPLEMENTED"
    ∷ codes "PLAN_REJECTED"
    ∷ codes "SCOPE_REVIEW"
    ∷ codes "SPEC_WITHHELD"
    ∷ codes "SPEC_DRAFTED"
    ∷ codes "REBUTTAL_UNJUDGED"
    ∷ codes "REVIEW_INCOMPLETE"
    ∷ []

unfoldable pub dependency_merged : Text
dependency_merged = codes "MERGED"

unfoldable pub dependency_waiting_states : List Text
dependency_waiting_states =
    codes "READY_FOR_REVIEW"
    ∷ codes "APPROVED"
    ∷ codes "MERGE_TRAIN"
    ∷ codes "REBUTTAL_UNJUDGED"
    ∷ codes "REVIEW_INCOMPLETE"
    ∷ []

unfoldable pub dependency_dead_states : List Text
dependency_dead_states = codes "REJECTED" ∷ codes "EXHAUSTED" ∷ []

unfoldable pub requeue_states : List Text
requeue_states =
    codes "CHANGES_REQUESTED"
    ∷ codes "RATE_LIMITED"
    ∷ codes "PROVIDER_UNREACHABLE"
    ∷ codes "GATE_ERROR"
    ∷ codes "PREFLIGHT_FAILED"
    ∷ codes "ORPHANED"
    ∷ []

-- `SETTLED_STATES`, by the two differences that define it.
unfoldable pub settled_states : List Text
unfolding done_states dependency_waiting_states
settled_states =
    filter (λ state. not (elem state (codes "SCOPE_REVIEW" ∷ codes "SPEC_DRAFTED" ∷ [])))
      (filter (λ state. not (elem state dependency_waiting_states)) done_states)

-- `column != text` for a column that may be NULL.
abbrev pub is_text : Text → Option Text → Bool
is_text text none = false
is_text text (some column) = same text column

-- `_stale_rebuttal_unjudged`
unfoldable pub stale_rebuttal_unjudged : TaskRow → Bool
stale_rebuttal_unjudged row =
    same (codes "REBUTTAL_UNJUDGED") row.state
    && not (is_text (codes "REBUTTAL_UNJUDGED") row.pushed_in_state)

-- `chain_branches` is a set.
pub record StackBase : Type 0 where
  pub spec_id : Text
  pub task_id : ℕ
  pub branch : Text
  pub chain_branches : List Text

pub record Candidate : Type 0 where
  pub path : Text
  pub spec : Spec
  pub spec_sha : Text
  pub task_id : Option ℕ
  pub stack_base : Option StackBase

pub data RefusalKind : Type 0 where
  open_pr_on_spec open_pr_overlap malformed_spec preflight : RefusalKind
  unmatched_criterion_path depends_on protected_touch retirement_marker : RefusalKind

pub record Refusal : Type 0 where
  pub path : Text
  pub reason : Text
  pub kind : RefusalKind
