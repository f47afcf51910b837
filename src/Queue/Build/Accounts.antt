-- ===== src/Queue/Build/Accounts.antt =====
-- What the loops of `build_queue` keep: the candidates, the two sides of the loop over them, and the
-- sort.
use saffron.Prelude.{
  same_iff, any, true, ◌≡◌, refl, ap, ◌∙◌, ◌↔◌, ◌⊎◌, false, not, ◌&&◌, List, [], ◌∷◌, Option, none,
  some, arith, elem_iff, Elem, Any, All, All-map, filter, ℤ, lt_ℤ, lt_ℤ-false_trans, lt_ℤ_asym,
  if_cases,
}
use saffron.Queue.Rows.{Candidate, Refusal, TaskRow, done_states}
use saffron.Queue.Order.Pick.{In}
use saffron.Queue.Build.{Judge, sift, sift_over, insert_candidate, sort_by_priority}
use saffron.Queue.Night.{DiscoveredSpec, open_candidates, candidate_of, is_done_row, rows_at}

sift_over_split :
    (judge : Judge) (d c : Candidate) (answer : Option Refusal) (candidates : List Candidate)
    (sifted : List Candidate × List Refusal)
    → judge d ≡ answer
    → In c sifted.0 ↔ (In c candidates × (judge c ≡ none))
    → In c (sift_over d answer sifted).0 ↔ (In c (d ∷ candidates) × (judge c ≡ none))
sift_over_split judge d c none candidates sifted e h =
    let moved = λ (p : c ≡ d). ap judge p ∙ e in ground (arith, h, moved)
sift_over_split judge d c (some refusal) candidates sifted e h =
    let moved = λ (p : c ≡ d). ap judge p ∙ e in ground (arith, h, moved)

-- What is kept is what is not refused.
pub sift-kept :
    (judge : Judge) (candidates : List Candidate) (c : Candidate)
    → In c (sift judge candidates).0 ↔ (In c candidates × (judge c ≡ none))
unfolding sift
sift-kept judge [] c = ground arith
sift-kept judge (d ∷ candidates) c =
    sift_over_split judge d c (judge d) candidates (sift judge candidates) refl
      (sift-kept judge candidates c)

sift_over_refused :
    (d : Candidate) (answer : Option Refusal) (refusal : Refusal)
    (sifted : List Candidate × List Refusal)
    → Any (λ r. refusal ≡ r) (sift_over d answer sifted).1
      ↔ ((answer ≡ some refusal) ⊎ Any (λ r. refusal ≡ r) sifted.1)
sift_over_refused d none refusal sifted = ground arith
sift_over_refused d (some own) refusal sifted = ground arith

-- The new refusals are the candidates' own.
pub sift-refused :
    (judge : Judge) (candidates : List Candidate) (refusal : Refusal)
    → Any (λ r. refusal ≡ r) (sift judge candidates).1
      ↔ Any (λ c. judge c ≡ some refusal) candidates
unfolding sift
sift-refused judge [] refusal = ground arith
sift-refused judge (d ∷ candidates) refusal = ground (
  arith,
  sift_over_refused d (judge d) refusal (sift judge candidates),
  sift-refused judge candidates refusal,
)

-- The queue's order: no spec behind one of a greater priority number.
abbrev pub IsSorted : List Candidate → Type 0
IsSorted [] = Unit
IsSorted (c ∷ queue) =
    All (λ d. lt_ℤ d.spec.priority c.spec.priority ≡ false) queue × IsSorted queue

insert_candidate-All :
    (P : Candidate → Type 0) (c : Candidate) (queue : List Candidate)
    → P c
    → All P queue
    → All P (insert_candidate c queue)
unfolding insert_candidate
insert_candidate-All P c [] h k = (h, tt)
insert_candidate-All P c (d ∷ queue) h k = ground (arith, insert_candidate-All P c queue h)

insert_candidate-IsSorted :
    (c : Candidate) (queue : List Candidate) → IsSorted queue → IsSorted (insert_candidate c queue)
unfolding insert_candidate
insert_candidate-IsSorted c [] h = (tt, tt)
insert_candidate-IsSorted c (d ∷ queue) h =
    if_cases IsSorted (lt_ℤ d.spec.priority c.spec.priority) (d ∷ insert_candidate c queue)
      (c ∷ d ∷ queue)
      (λ below. (
        insert_candidate-All (λ e. lt_ℤ e.spec.priority d.spec.priority ≡ false) c queue
            (lt_ℤ_asym d.spec.priority c.spec.priority below) h.0,
        insert_candidate-IsSorted c queue h.1,
      ))
      λ above. (
        (
          above,
          All-map (λ e k. lt_ℤ-false_trans c.spec.priority d.spec.priority e.spec.priority above k)
              queue h.0,
        ),
        h,
      )

pub sort_by_priority-IsSorted : (kept : List Candidate) → IsSorted (sort_by_priority kept)
unfolding sort_by_priority
sort_by_priority-IsSorted [] = tt
sort_by_priority-IsSorted (c ∷ kept) =
    insert_candidate-IsSorted c (sort_by_priority kept) (sort_by_priority-IsSorted kept)

-- The specs of one priority.
unfoldable pub at_priority : ℤ → List Candidate → List Candidate
at_priority p queue =
    filter (λ c. not (lt_ℤ c.spec.priority p) && not (lt_ℤ p c.spec.priority)) queue

insert_candidate-at_priority :
    (p : ℤ) (c : Candidate) (queue : List Candidate)
    → at_priority p (insert_candidate c queue) ≡ at_priority p (c ∷ queue)
unfolding insert_candidate at_priority
insert_candidate-at_priority p c [] = refl
insert_candidate-at_priority p c (d ∷ queue) = ground (
  arith,
  insert_candidate-at_priority p c queue,
  lt_ℤ-false_trans p c.spec.priority d.spec.priority,
  lt_ℤ-false_trans c.spec.priority p d.spec.priority,
  lt_ℤ-false_trans d.spec.priority p c.spec.priority,
  lt_ℤ_asym d.spec.priority c.spec.priority,
)

at_priority-cons :
    (p : ℤ) (c : Candidate) (queue other : List Candidate)
    → at_priority p queue ≡ at_priority p other
    → at_priority p (c ∷ queue) ≡ at_priority p (c ∷ other)
unfolding at_priority
at_priority-cons p c queue other h = ground (arith, h)

-- The sort is stable: the specs of one priority keep their order.
pub sort_by_priority_stable :
    (p : ℤ) (kept : List Candidate) → at_priority p (sort_by_priority kept) ≡ at_priority p kept
unfolding sort_by_priority
sort_by_priority_stable p [] = refl
sort_by_priority_stable p (c ∷ kept) =
    insert_candidate-at_priority p c (sort_by_priority kept)
    ∙ ground
        (arith, at_priority-cons p c (sort_by_priority kept) kept, sort_by_priority_stable p kept)

insert_candidate_iff :
    (c d : Candidate) (queue : List Candidate)
    → In c (insert_candidate d queue) ↔ ((c ≡ d) ⊎ In c queue)
unfolding insert_candidate
insert_candidate_iff c d [] = ground arith
insert_candidate_iff c d (e ∷ queue) = ground (arith, insert_candidate_iff c d queue)

pub sort_by_priority_iff :
    (c : Candidate) (kept : List Candidate) → In c (sort_by_priority kept) ↔ In c kept
unfolding sort_by_priority
sort_by_priority_iff c [] = ground arith
sort_by_priority_iff c (d ∷ kept) =
    ground (arith, insert_candidate_iff c d (sort_by_priority kept), sort_by_priority_iff c kept)

-- The row is of a task at the spec's id and sha.
abbrev pub IsTaskOf : DiscoveredSpec → TaskRow → Type 0
IsTaskOf found row = (found.spec.id ≡ row.spec_id) × (found.spec_sha ≡ row.spec_sha)

-- No task at the spec's sha is done with it.
abbrev pub IsOpen : List TaskRow → DiscoveredSpec → Type 0
IsOpen ledger found = ¬ Any (λ row. IsTaskOf found row × Elem row.state done_states) ledger

pub is_done_iff :
    (found : DiscoveredSpec) (ledger : List TaskRow)
    → (any is_done_row (rows_at ledger found.spec.id found.spec_sha) ≡ true)
      ↔ Any (λ row. IsTaskOf found row × Elem row.state done_states) ledger
unfolding rows_at
is_done_iff found [] = ground arith
is_done_iff found (row ∷ ledger) = ground (
  arith,
  is_done_iff found ledger,
  same_iff found.spec.id row.spec_id,
  same_iff found.spec_sha row.spec_sha,
  elem_iff row.state done_states,
)

abbrev pub open_candidate : List TaskRow → DiscoveredSpec → Candidate
open_candidate ledger found = candidate_of found (rows_at ledger found.spec.id found.spec_sha)

-- The candidates are those of the discovered specs that are open.
pub open_candidates_iff :
    (ledger : List TaskRow) (specs : List DiscoveredSpec) (c : Candidate)
    → In c (open_candidates ledger specs)
      ↔ Any (λ found. IsOpen ledger found × (c ≡ open_candidate ledger found)) specs
unfolding open_candidates
open_candidates_iff ledger [] c = ground arith
open_candidates_iff ledger (found ∷ specs) c =
    ground (arith, open_candidates_iff ledger specs c, is_done_iff found ledger)
