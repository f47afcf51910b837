-- ===== src/Queue/Build/Resumes.antt =====
-- The candidate that the loop over the specs makes of an open one.
use saffron.Prelude.{
  ℕ, ◌≡◌, refl, ap, ◌↔◌, inl, inr, true, ◌&&◌, List, [], ◌∷◌, ◌++◌, Option, none, some, arith, same,
  same_iff, Elem, elem_iff, Any, filter, if_cases,
}
use saffron.Queue.Rows.{Candidate, TaskRow, requeue_states}
use saffron.Queue.Night.{DiscoveredSpec, rows_at, last_task, is_requeued_row}
use saffron.Queue.Build.Accounts.{IsTaskOf, open_candidate}

-- A task of the spec at its sha that a new run takes up again.
abbrev pub IsResumable : DiscoveredSpec → TaskRow → Type 0
IsResumable found row = IsTaskOf found row × Elem row.state requeue_states

-- The task to resume is that of the last such row, if there is one.
abbrev pub Resumes : DiscoveredSpec → List TaskRow → Option ℕ → Type 0
Resumes found ledger none = ¬ Any (IsResumable found) ledger
Resumes found ledger (some id) =
    (before : List TaskRow) × (row : TaskRow) × (after : List TaskRow) × (ledger
      ≡ before ++ row ∷ after)
    × IsResumable found row
    × (¬ Any (IsResumable found) after)
    × (id ≡ row.task_id)

-- The candidate of a spec: its path, the spec and its sha, the task to resume, and no base yet.
abbrev pub IsCandidateOf : List TaskRow → DiscoveredSpec → Candidate → Type 0
IsCandidateOf ledger found c =
    (c.path ≡ found.path)
    × (c.spec ≡ found.spec)
    × (c.spec_sha ≡ found.spec_sha)
    × Resumes found ledger c.task_id
    × (c.stack_base ≡ none)

module _ (found : DiscoveredSpec) where
  abbrev requeued : List TaskRow → List TaskRow
  requeued ledger = filter is_requeued_row (rows_at ledger found.spec.id found.spec_sha)

  Resumes-cons :
      (row : TaskRow) (ledger : List TaskRow) (task : Option ℕ)
      → ¬ IsResumable found row
      → Resumes found ledger task
      → Resumes found (row ∷ ledger) task
  Resumes-cons row ledger none n h = λ m. elim m [ inl r ↦ n r | inr later ↦ h later ]
  Resumes-cons row ledger (some id) n (before, last, after, e, r, l, f) =
      (row ∷ before, last, after, ap (λ (t : List TaskRow). row ∷ t) e, r, l, f)

  Resumes-own :
      (row : TaskRow) (ledger : List TaskRow) (task : Option ℕ)
      → IsResumable found row
      → Resumes found ledger task
      → Resumes found (row ∷ ledger) (elim task [ none ↦ some row.task_id | some id ↦ some id ])
  Resumes-own row ledger none r h = ([], row, ledger, refl, r, h, refl)
  Resumes-own row ledger (some id) r (before, last, after, e, q, l, f) =
      (row ∷ before, last, after, ap (λ (t : List TaskRow). row ∷ t) e, q, l, f)

  last_task-Resumes : (ledger : List TaskRow) → Resumes found ledger (last_task (requeued ledger))
  unfolding rows_at
  last_task-Resumes [] = λ m. m
  last_task-Resumes (row ∷ ledger) =
      let later = last_task-Resumes ledger in
      let rest = rows_at ledger found.spec.id found.spec_sha in
      let own : (IsTaskOf found row)
          ↔ ((same found.spec.id row.spec_id && same found.spec_sha row.spec_sha) ≡ true) =
        ground (arith, same_iff found.spec.id row.spec_id, same_iff found.spec_sha row.spec_sha) in
      if_cases
        (λ (rows : List TaskRow).
          Resumes found (row ∷ ledger) (last_task (filter is_requeued_row rows)))
        (same found.spec.id row.spec_id && same found.spec_sha row.spec_sha) (row ∷ rest) rest
        (λ e.
          if_cases (λ (rows : List TaskRow). Resumes found (row ∷ ledger) (last_task rows))
            (is_requeued_row row) (row ∷ requeued ledger) (requeued ledger)
            (λ f.
              Resumes-own row ledger (last_task (requeued ledger))
                (own.1 e, (elem_iff row.state requeue_states).0 f) later)
            (λ f.
              Resumes-cons row ledger (last_task (requeued ledger))
                (λ r. cc (f, (elem_iff row.state requeue_states).1 r.1)) later))
        (λ e. Resumes-cons row ledger (last_task (requeued ledger)) (λ r. cc (e, own.0 r.0)) later)

  pub open_candidate-IsCandidateOf :
      (ledger : List TaskRow) → IsCandidateOf ledger found (open_candidate ledger found)
  open_candidate-IsCandidateOf ledger = (refl, refl, refl, last_task-Resumes ledger, refl)
