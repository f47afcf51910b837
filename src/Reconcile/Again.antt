-- ===== src/Reconcile/Again.antt =====
-- A second scan of `reconcile` over what the first one left.
use saffron.Prelude.{
  ℕ, ◌≡◌, refl, sym, ap, ap₂, ◌∙◌, subst, ◌⊎◌, inl, inr, true, false, not, ◌&&◌, ◌||◌, List, [],
  ◌∷◌, map, Option, none, some, arith, Text, codes, same, same_iff, elem, is_empty, Bool-cases,
  if_cases,
}
use saffron.Reconcile.{
  TrackedTask, PullStatus, Regate, Bucket, Report, Answers, merge_only_states, bucket_of,
  next_state, is_asked, settle, write_state, apply_answer, land, reconcile_row, reconcile, or_empty,
  is_selected, recorded_head,
}
use saffron.Reconcile.States.{row_after, reconcile-rows}
use saffron.Reconcile.Moves.{reconcile_row-Keeps}

settle_same : (state : Text) → settle state (some state) ≡ none
unfolding settle
settle_same state = ground (arith, same_iff state state)

-- A row that has the state that the answer asks for, and no recorded merge unless it is merged.
settled_row :
    (pr : PullStatus) (regate : Option Regate) (row : TrackedTask)
    → next_state pr ≡ some row.state
    → (is_empty (or_empty row.merged_head_sha) ≡ false → row.state ≡ codes "MERGED")
    → (reconcile_row (some pr) regate row).0 ≡ row
unfolding reconcile_row
settled_row pr regate row h k =
    if_cases (λ (done : TrackedTask × List Report). done.0 ≡ row) (not (is_asked row)) _ _
      (λ quiet. refl)
      λ asked.
        if_cases (λ (done : TrackedTask × List Report). done.0 ≡ row)
          (not (is_empty (or_empty row.merged_head_sha))) (land row)
          (apply_answer (some pr) regate row)
          (λ known. ap (λ (t : Text). record row { state = t }) (sym (k (ground arith))))
          λ unknown.
            ap
              (λ (t : Option Text). write_state row (or_empty pr.head_ref_oid) (settle row.state t))
              h
            ∙ ap (write_state row (or_empty pr.head_ref_oid)) (settle_same row.state)

-- What an answer leaves is left again.
settled_again :
    (pr : PullStatus) (regate : Option Regate) (row : TrackedTask) (candidate : Option Text)
    → next_state pr ≡ candidate
    → is_asked row ≡ true
    → is_empty (or_empty row.merged_head_sha) ≡ true
    → let after = write_state row (or_empty pr.head_ref_oid) (settle row.state candidate) in
      (after ≡ row) ⊎ ((reconcile_row (some pr) regate after).0 ≡ after)
unfolding settle
settled_again pr regate row none h a k = inl refl
settled_again pr regate row (some candidate) h a k =
    let head = or_empty pr.head_ref_oid in
    if_cases
      (λ settled.
        (write_state row head settled ≡ row)
        ⊎ ((reconcile_row (some pr) regate (write_state row head settled)).0
            ≡ write_state row head settled))
      ((not (elem row.state merge_only_states) || same candidate (codes "MERGED"))
        && not (same candidate row.state))
      _ none (λ moves. bucketed (bucket_of candidate)) λ stays. inl refl
  where
    bucketed :
        (bucket : Option Bucket)
        → let settled : Option (Text × Bucket) = elim bucket [
          | some b ↦ some (candidate, b)
          | none ↦ none
        ] in
          (write_state row (or_empty pr.head_ref_oid) settled ≡ row)
          ⊎ ((reconcile_row (some pr) regate (write_state row (or_empty pr.head_ref_oid) settled)).0
              ≡ write_state row (or_empty pr.head_ref_oid) settled)
    bucketed none = inl refl
    bucketed (some bucket) = inr (
        settled_row pr regate
          (write_state row (or_empty pr.head_ref_oid) (some (candidate, bucket))) h
          λ known. only_merged (Bool-cases (same candidate (codes "MERGED"))) known)
      where
        only_merged :
            (same candidate (codes "MERGED") ≡ true) ⊎ (same candidate (codes "MERGED") ≡ false)
            → is_empty
                (or_empty (recorded_head candidate (or_empty pr.head_ref_oid) row.merged_head_sha))
              ≡ false
            → candidate ≡ codes "MERGED"
        only_merged (inl e) known = (same_iff candidate (codes "MERGED")).0 e
        only_merged (inr e) known = ground (arith, e, known, k)

module _ (answer : Option PullStatus) (regate : Option Regate) (row : TrackedTask) where
  -- One scan of the row has the second one behind it.
  abbrev Settles : TrackedTask → Type 0
  Settles after = (reconcile_row answer regate after).0 ≡ after

  quiet_row : is_asked row ≡ false → reconcile_row answer regate row ≡ (row, [])
  unfolding reconcile_row
  quiet_row e = rw e refl

  landed_row :
      is_asked row ≡ true
      → is_empty (or_empty row.merged_head_sha) ≡ false
      → reconcile_row answer regate row ≡ land row
  unfolding reconcile_row
  landed_row e k = rw (e, k) refl

  answered_row :
      is_asked row ≡ true
      → is_empty (or_empty row.merged_head_sha) ≡ true
      → reconcile_row answer regate row ≡ apply_answer answer regate row
  unfolding reconcile_row
  answered_row e k = rw (e, k) refl

  land-Settles : is_empty (or_empty row.merged_head_sha) ≡ false → Settles (land row).0
  unfolding reconcile_row
  land-Settles k =
      if_cases (λ (done : TrackedTask × List Report). done.0 ≡ (land row).0)
        (not (is_asked (land row).0)) _ _ (λ quiet. refl)
        λ asked.
          if_cases (λ (done : TrackedTask × List Report). done.0 ≡ (land row).0)
            (not (is_empty (or_empty row.merged_head_sha))) (land (land row).0) _ (λ known. refl)
            λ unknown. absurd (ground (arith, k, unknown))

abbrev row_of : TrackedTask × List Report → TrackedTask
row_of done = done.0

apply-Settles :
    (answer : Option PullStatus) (regate : Option Regate) (row : TrackedTask)
    → is_asked row ≡ true
    → is_empty (or_empty row.merged_head_sha) ≡ true
    → Settles answer regate row (apply_answer answer regate row).0
apply-Settles none regate row a k = ap row_of (answered_row none regate row a k)
apply-Settles (some pr) regate row a k =
    elim (settled_again pr regate row (next_state pr) refl a k) [
      | inl e ↦
          subst (Settles (some pr) regate row) (sym e)
            (ap row_of (answered_row (some pr) regate row a k) ∙ e)
      | inr settles ↦ settles
    ]

reconcile_row_again :
    (answer : Option PullStatus) (regate : Option Regate) (row : TrackedTask)
    → Settles answer regate row (reconcile_row answer regate row).0
reconcile_row_again answer regate row = elim (Bool-cases (is_asked row)) [
  | inr quiet ↦
      let stays = ap row_of (quiet_row answer regate row quiet) in
      subst (Settles answer regate row) (sym stays) stays
  | inl asked ↦ elim (Bool-cases (is_empty (or_empty row.merged_head_sha))) [
    | inr known ↦
        subst (Settles answer regate row)
          (sym (ap row_of (landed_row answer regate row asked known)))
          (land-Settles answer regate row known)
    | inl unknown ↦
        subst (Settles answer regate row)
          (sym (ap row_of (answered_row answer regate row asked unknown)))
          (apply-Settles answer regate row asked unknown)
  ]
]

row_after_again :
    (answers : Answers) (spec_id : Option Text) (row : TrackedTask)
    → row_after answers false spec_id (row_after answers false spec_id row)
      ≡ row_after answers false spec_id row
row_after_again answers spec_id row =
    let asked = reconcile_row (answers.pull row.task_id) (answers.regate row.task_id) row in
    if_cases (λ (after : TrackedTask). row_after answers false spec_id after ≡ after)
      (is_selected spec_id row) asked.0 row
      (λ own.
        if_cases (λ (after : TrackedTask). after ≡ asked.0) (is_selected spec_id asked.0) _ _
          (λ still.
            subst
              (λ (id : ℕ).
                (reconcile_row (answers.pull id) (answers.regate id) asked.0).0 ≡ asked.0)
              (sym
                (reconcile_row-Keeps (answers.pull row.task_id) (answers.regate row.task_id) row).0)
              (reconcile_row_again (answers.pull row.task_id) (answers.regate row.task_id) row))
          λ gone. refl)
      λ other. rw other refl

map_again :
    (f : TrackedTask → TrackedTask) (rows : List TrackedTask)
    → ((row : TrackedTask) → f (f row) ≡ f row)
    → map f (map f rows) ≡ map f rows
map_again f [] h = refl
map_again f (row ∷ rows) h = ap₂ (λ (r : TrackedTask) rs. r ∷ rs) (h row) (map_again f rows h)

-- `reconcile` is idempotent where it stamps nothing: a second scan of the ledger that a first one
-- left, with the same answers, changes no row.
pub reconcile_again :
    (answers : Answers) (spec_id : Option Text) (ledger : List TrackedTask)
    → (reconcile answers false spec_id (reconcile answers false spec_id ledger).0).0
      ≡ (reconcile answers false spec_id ledger).0
reconcile_again answers spec_id ledger =
    let once = reconcile-rows answers false spec_id ledger in
    reconcile-rows answers false spec_id (reconcile answers false spec_id ledger).0
    ∙ ap (map (row_after answers false spec_id)) once
    ∙ map_again (row_after answers false spec_id) ledger (row_after_again answers spec_id)
    ∙ sym once
