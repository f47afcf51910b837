-- ===== src/Reconcile/Moves.antt =====
-- `reconcile` over the whole ledger: what may become of a row, and a second scan.
use saffron.Prelude.{
  ◌≡◌, refl, sym, subst, ◌⊎◌, inl, inr, Bool, true, not, ◌&&◌, List, [], ◌∷◌, map, Option, none,
  some, arith, Text, codes, elem, Elem, elem_iff, is_empty, if_cases, if◌then◌else◌,
}
use saffron.Reconcile.{
  TrackedTask, PullStatus, Regate, Bucket, Report, Answers, in_flight_states, next_state, is_asked,
  settle, write_state, apply_answer, reconcile_row, reconcile, or_empty, is_selected,
}
use saffron.Reconcile.States.{MayMove, reconcile_row-MayMove, row_after, reconcile-rows}

-- What no write changes.
abbrev pub Keeps : TrackedTask → TrackedTask → Type 0
Keeps row after =
    (after.task_id ≡ row.task_id)
    × (after.spec_id ≡ row.spec_id)
    × (after.pr_url ≡ row.pr_url)
    × (after.pushed_sha ≡ row.pushed_sha)

write_state-Keeps :
    (row : TrackedTask) (head : Text) (settled : Option (Text × Bucket))
    → Keeps row (write_state row head settled)
write_state-Keeps row head none = (refl, refl, refl, refl)
write_state-Keeps row head (some (state, bucket)) = (refl, refl, refl, refl)

apply_answer-Keeps :
    (answer : Option PullStatus) (regate : Option Regate) (row : TrackedTask)
    → Keeps row (apply_answer answer regate row).0
apply_answer-Keeps none regate row = (refl, refl, refl, refl)
apply_answer-Keeps (some pr) regate row =
    write_state-Keeps row (or_empty pr.head_ref_oid) (settle row.state (next_state pr))

pub reconcile_row-Keeps :
    (answer : Option PullStatus) (regate : Option Regate) (row : TrackedTask)
    → Keeps row (reconcile_row answer regate row).0
unfolding reconcile_row
reconcile_row-Keeps answer regate row =
    if_cases (λ (done : TrackedTask × List Report). Keeps row done.0) (not (is_asked row)) _ _
      (λ quiet. (refl, refl, refl, refl))
      λ asked.
        if_cases (λ (done : TrackedTask × List Report). Keeps row done.0)
          (not (is_empty (or_empty row.merged_head_sha))) _ _ (λ known. (refl, refl, refl, refl))
          λ unknown. apply_answer-Keeps answer regate row

-- What may become of one row: its state stays, or it is of a selected spec and moves with a reason,
-- or a batch's scan found it in flight.
abbrev pub RowMove : Answers → Bool → Option Text → TrackedTask → TrackedTask → Type 0
RowMove answers stamp_orphaned spec_id row after =
    Keeps row after
    × ((after.state ≡ row.state)
        ⊎ ((is_selected spec_id row ≡ true)
            × (MayMove (answers.pull row.task_id) row after.state
                ⊎ ((stamp_orphaned ≡ true)
                    × Elem row.state in_flight_states
                    × (after.state ≡ codes "ORPHANED")))))

asked_move :
    (answers : Answers) (stamp_orphaned : Bool) (spec_id : Option Text) (row : TrackedTask)
    → RowMove answers stamp_orphaned spec_id row (
        if is_selected spec_id row
        then (reconcile_row (answers.pull row.task_id) (answers.regate row.task_id) row).0
        else row)
asked_move answers stamp_orphaned spec_id row =
    let answer = answers.pull row.task_id in
    let regate = answers.regate row.task_id in
    if_cases (RowMove answers stamp_orphaned spec_id row) (is_selected spec_id row)
      (reconcile_row answer regate row).0 row
      (λ own. (
        reconcile_row-Keeps answer regate row,
        elim (reconcile_row-MayMove answer regate row) [
          | inl stays ↦ inl stays
          | inr moves ↦ inr (own, inl moves)
        ],
      ))
      λ other. ((refl, refl, refl, refl), inl refl)

row_after-RowMove :
    (answers : Answers) (stamp_orphaned : Bool) (spec_id : Option Text) (row : TrackedTask)
    → RowMove answers stamp_orphaned spec_id row (row_after answers stamp_orphaned spec_id row)
row_after-RowMove answers stamp_orphaned spec_id row =
    let asked = asked_move answers stamp_orphaned spec_id row in
    if_cases (RowMove answers stamp_orphaned spec_id row)
      (stamp_orphaned && (is_selected spec_id row && elem row.state in_flight_states)) _ _
      (λ stamped. (
        asked.0,
        inr (
          ground arith,
          inr (ground arith, (elem_iff row.state in_flight_states).0 (ground arith), refl),
        ),
      ))
      λ unstamped. asked

-- The rows before and after, in the same places.
abbrev pub RowsMove : Answers → Bool → Option Text → List TrackedTask → List TrackedTask → Type 0
RowsMove answers stamp_orphaned spec_id [] [] = Unit
RowsMove answers stamp_orphaned spec_id (row ∷ rows) (after ∷ later) =
    RowMove answers stamp_orphaned spec_id row after
    × RowsMove answers stamp_orphaned spec_id rows later
RowsMove answers stamp_orphaned spec_id [] (after ∷ later) = ⊥
RowsMove answers stamp_orphaned spec_id (row ∷ rows) [] = ⊥

map-RowsMove :
    (answers : Answers) (stamp_orphaned : Bool) (spec_id : Option Text) (ledger : List TrackedTask)
    → RowsMove answers stamp_orphaned spec_id ledger
        (map (row_after answers stamp_orphaned spec_id) ledger)
map-RowsMove answers stamp_orphaned spec_id [] = tt
map-RowsMove answers stamp_orphaned spec_id (row ∷ ledger) = (
  row_after-RowMove answers stamp_orphaned spec_id row,
  map-RowsMove answers stamp_orphaned spec_id ledger,
)

-- `reconcile` moves a task only with a reason: to MERGED on a recorded merge or on GitHub's word that
-- it merged, to another state that GitHub's answer asks for only where the task does not wait for a
-- merge alone, and to ORPHANED only a task in flight, at a batch's scan. A task of another spec, one
-- that is not asked about, and one that got no answer and has no recorded merge keeps its state, and
-- no row is lost.
pub reconcile-RowsMove :
    (answers : Answers) (stamp_orphaned : Bool) (spec_id : Option Text) (ledger : List TrackedTask)
    → RowsMove answers stamp_orphaned spec_id ledger
        (reconcile answers stamp_orphaned spec_id ledger).0
reconcile-RowsMove answers stamp_orphaned spec_id ledger =
    subst (λ (rows : List TrackedTask). RowsMove answers stamp_orphaned spec_id ledger rows)
      (sym (reconcile-rows answers stamp_orphaned spec_id ledger))
      (map-RowsMove answers stamp_orphaned spec_id ledger)
