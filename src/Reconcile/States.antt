-- ===== src/Reconcile/States.antt =====
-- The moves that `reconcile` makes, and what makes them.
use saffron.Prelude.{
  ◌≡◌, refl, ◌↔◌, ◌⊎◌, inl, inr, Bool, true, false, not, ◌&&◌, ◌||◌, List, [], ◌∷◌, map, Option,
  none, some, arith, Text, codes, same, same_iff, elem, Elem, elem_iff, is_empty, if_cases,
  if◌then◌else◌,
}
use saffron.Reconcile.{
  TrackedTask, PullStatus, Regate, Bucket, Report, Answers, merge_only_states, in_flight_states,
  bucket_of, next_state, is_asked, settle, write_state, apply_answer, land, reconcile_row,
  reconcile_rows, stamp_rows, reconcile, is_value, is_false, or_empty, is_selected, rows_after,
}

-- Why an answer asks for a state.
abbrev pub Asks : PullStatus → Text → Type 0
Asks pr state =
    ((state ≡ codes "MERGED") × (pr.state ≡ some (codes "MERGED")))
    ⊎ (((state ≡ codes "REJECTED") × (pr.state ≡ some (codes "CLOSED")))
        ⊎ (((state ≡ codes "CHANGES_REQUESTED")
              × (pr.state ≡ some (codes "OPEN"))
              × (pr.review_decision ≡ some (codes "CHANGES_REQUESTED")))
            ⊎ ((state ≡ codes "APPROVED")
                × (pr.state ≡ some (codes "OPEN"))
                × (pr.is_draft ≡ some false))))

is_value_iff :
    (text : Text) (field : Option Text) → (is_value text field ≡ true) ↔ (field ≡ some text)
is_value_iff text none = ground arith
is_value_iff text (some value) = ground (arith, same_iff text value)

is_false_iff : (field : Option Bool) → (is_false field ≡ true) ↔ (field ≡ some false)
is_false_iff none = ground arith
is_false_iff (some true) = ground arith
is_false_iff (some false) = ground arith

next_state-Asks : (pr : PullStatus) (state : Text) → next_state pr ≡ some state → Asks pr state
unfolding next_state
next_state-Asks pr state h = ground (
  arith,
  is_value_iff (codes "MERGED") pr.state,
  is_value_iff (codes "CLOSED") pr.state,
  is_value_iff (codes "OPEN") pr.state,
  is_value_iff (codes "CHANGES_REQUESTED") pr.review_decision,
  is_false_iff pr.is_draft,
)

-- A move to a state that the row was not in, with its reason: the pull request merged, now or at an
-- earlier scan, or, where a row is not to wait for a merge alone, what the answer asks for.
abbrev pub MayMove : Option PullStatus → TrackedTask → Text → Type 0
MayMove none row state =
    (is_asked row ≡ true)
    × (is_empty (or_empty row.merged_head_sha) ≡ false)
    × (state ≡ codes "MERGED")
MayMove (some pr) row state =
    (is_asked row ≡ true)
    × (((is_empty (or_empty row.merged_head_sha) ≡ false) × (state ≡ codes "MERGED"))
        ⊎ (Asks pr state × ((state ≡ codes "MERGED") ⊎ (¬ Elem row.state merge_only_states))))

settle_bucketed :
    (pr : PullStatus) (row : TrackedTask) (head candidate : Text)
    → is_asked row ≡ true
    → ((not (elem row.state merge_only_states) || same candidate (codes "MERGED"))
        && not (same candidate row.state))
      ≡ true
    → next_state pr ≡ some candidate
    → (bucket : Option Bucket)
    → let settled : Option (Text × Bucket) = elim bucket [
      | some b ↦ some (candidate, b)
      | none ↦ none
    ] in
      ((write_state row head settled).state ≡ row.state)
      ⊎ MayMove (some pr) row (write_state row head settled).state
settle_bucketed pr row head candidate a moves h none = inl refl
settle_bucketed pr row head candidate a moves h (some bucket) = inr (
  a,
  inr (
    next_state-Asks pr candidate h,
    ground
        (arith, moves, elem_iff row.state merge_only_states, same_iff candidate (codes "MERGED")),
  ),
)

settle-MayMove :
    (pr : PullStatus) (row : TrackedTask) (head : Text) (candidate : Option Text)
    → is_asked row ≡ true
    → next_state pr ≡ candidate
    → ((write_state row head (settle row.state candidate)).state ≡ row.state)
      ⊎ MayMove (some pr) row (write_state row head (settle row.state candidate)).state
unfolding settle
settle-MayMove pr row head none a h = inl refl
settle-MayMove pr row head (some candidate) a h =
    if_cases
      (λ settled.
        ((write_state row head settled).state ≡ row.state)
        ⊎ MayMove (some pr) row (write_state row head settled).state)
      ((not (elem row.state merge_only_states) || same candidate (codes "MERGED"))
        && not (same candidate row.state))
      _ none (λ moves. settle_bucketed pr row head candidate a moves h (bucket_of candidate))
      λ stays. inl refl

pub reconcile_row-MayMove :
    (answer : Option PullStatus) (regate : Option Regate) (row : TrackedTask)
    → ((reconcile_row answer regate row).0.state ≡ row.state)
      ⊎ MayMove answer row (reconcile_row answer regate row).0.state
unfolding reconcile_row
reconcile_row-MayMove answer regate row =
    if_cases
      (λ (done : TrackedTask × List Report).
        (done.0.state ≡ row.state) ⊎ MayMove answer row done.0.state)
      (not (is_asked row)) (row, []) _ (λ quiet. inl refl)
      λ asked.
        if_cases
          (λ (done : TrackedTask × List Report).
            (done.0.state ≡ row.state) ⊎ MayMove answer row done.0.state)
          (not (is_empty (or_empty row.merged_head_sha))) (land row)
          (apply_answer answer regate row) (λ known. landed answer (ground arith) (ground arith))
          λ unknown. answered answer (ground arith)
  where
    landed :
        (answer : Option PullStatus)
        → is_asked row ≡ true
        → is_empty (or_empty row.merged_head_sha) ≡ false
        → (codes "MERGED" ≡ row.state) ⊎ MayMove answer row (codes "MERGED")
    landed none a k = inr (a, k, refl)
    landed (some pr) a k = inr (a, inl (k, refl))

    answered :
        (answer : Option PullStatus)
        → is_asked row ≡ true
        → ((apply_answer answer regate row).0.state ≡ row.state)
          ⊎ MayMove answer row (apply_answer answer regate row).0.state
    answered none a = inl refl
    answered (some pr) a = settle-MayMove pr row (or_empty pr.head_ref_oid) (next_state pr) a refl

-- What becomes of one row of the ledger.
abbrev pub row_after : Answers → Bool → Option Text → TrackedTask → TrackedTask
row_after answers stamp_orphaned spec_id row =
    let after =
      if is_selected spec_id row
      then (reconcile_row (answers.pull row.task_id) (answers.regate row.task_id) row).0
      else row in
    if stamp_orphaned && (is_selected spec_id row && elem row.state in_flight_states)
    then record after { state = codes "ORPHANED" }
    else after

reconcile_rows_lem :
    (answers : Answers) (stamp_orphaned : Bool) (spec_id : Option Text) (ledger : List TrackedTask)
    → (if stamp_orphaned
        then (stamp_rows spec_id (reconcile_rows answers spec_id ledger).0).0
        else rows_after (reconcile_rows answers spec_id ledger).0)
      ≡ map (row_after answers stamp_orphaned spec_id) ledger
unfolding reconcile_rows stamp_rows
reconcile_rows_lem answers true spec_id [] = refl
reconcile_rows_lem answers false spec_id [] = refl
reconcile_rows_lem answers true spec_id (row ∷ ledger) =
    ground (arith, reconcile_rows_lem answers true spec_id ledger)
reconcile_rows_lem answers false spec_id (row ∷ ledger) =
    ground (arith, reconcile_rows_lem answers false spec_id ledger)

pub reconcile-rows :
    (answers : Answers) (stamp_orphaned : Bool) (spec_id : Option Text) (ledger : List TrackedTask)
    → (reconcile answers stamp_orphaned spec_id ledger).0
      ≡ map (row_after answers stamp_orphaned spec_id) ledger
unfolding reconcile
reconcile-rows answers true spec_id ledger = reconcile_rows_lem answers true spec_id ledger
reconcile-rows answers false spec_id ledger = reconcile_rows_lem answers false spec_id ledger
