-- ===== src/Queue/Build/Unstacked.antt =====
-- `build_queue` without stacking: which candidates the queue holds, and in which order.
use saffron.Prelude.{
  arith, ◌≡◌, refl, ◌↔◌, true, false, List, [], ◌∷◌, Option, none, some, Text, ℤ, any, if_cases,
}
use saffron.Gates.Contract.{CharClasses}
use saffron.Queue.Walk.{ancestor_branches}
use saffron.Queue.Rows.{Candidate, Refusal, TaskRow}
use saffron.Queue.Names.{find_held}
use saffron.Queue.Dependencies.{refuse}
use saffron.Queue.Order.Pick.{In}
use saffron.Queue.Night.{
  Night, DiscoveredSpec, rows_of, rows_at, edges_of, open_candidates, is_done_row,
}
use saffron.Queue.Build.{
  Judge, sift, sift_over, judge_of, scan_of, sift_night, night_judge, night_candidates, held_on,
  build_queue, sort_by_priority,
}
use saffron.Queue.Build.Accounts.{
  IsSorted, IsOpen, is_done_iff, sort_by_priority-IsSorted, sort_by_priority_iff, open_candidate,
  at_priority, sort_by_priority_stable,
}
use saffron.Queue.Build.Resumes.{IsCandidateOf, open_candidate-IsCandidateOf}
use saffron.Queue.Build.Clashing.{ClashesOn, held_on-none_iff}
use saffron.Queue.Build.Outcome.{judged-none_iff}

-- The candidates of the specs that are open and that are let pass, in the order of the specs.
pub data Kept (ledger : List TaskRow) (Passes : Candidate → Type 0)
    : List DiscoveredSpec → List Candidate → Type 0 where
  no_specs : Kept ledger Passes [] []
  kept :
      {found : DiscoveredSpec} {c : Candidate} {specs : List DiscoveredSpec}
      {candidates : List Candidate}
      → IsOpen ledger found
      → IsCandidateOf ledger found c
      → Passes c
      → Kept ledger Passes specs candidates
      → Kept ledger Passes (found ∷ specs) (c ∷ candidates)
  done_with :
      {found : DiscoveredSpec} {specs : List DiscoveredSpec} {candidates : List Candidate}
      → ¬ IsOpen ledger found
      → Kept ledger Passes specs candidates
      → Kept ledger Passes (found ∷ specs) candidates
  refused :
      {found : DiscoveredSpec} {c : Candidate} {specs : List DiscoveredSpec}
      {candidates : List Candidate}
      → IsCandidateOf ledger found c
      → ¬ Passes c
      → Kept ledger Passes specs candidates
      → Kept ledger Passes (found ∷ specs) candidates

module _ (judge : Judge) (Passes : Candidate → Type 0)
    (decides : (c : Candidate) → (judge c ≡ none) ↔ Passes c) (ledger : List TaskRow) where
  sift_over-Kept :
      (found : DiscoveredSpec) (specs : List DiscoveredSpec) (answer : Option Refusal)
      (sifted : List Candidate × List Refusal)
      → IsOpen ledger found
      → judge (open_candidate ledger found) ≡ answer
      → Kept ledger Passes specs sifted.0
      → Kept ledger Passes (found ∷ specs) (sift_over (open_candidate ledger found) answer sifted).0
  sift_over-Kept found specs none (candidates, refusals) o e k =
      kept o (open_candidate-IsCandidateOf found ledger)
        ((decides (open_candidate ledger found)).0 e) k
  sift_over-Kept found specs (some refusal) (candidates, refusals) o e k =
      refused (open_candidate-IsCandidateOf found ledger)
        (λ (p : Passes (open_candidate ledger found)).
          cc (e, (decides (open_candidate ledger found)).1 p))
        k

  sift-Kept :
      (specs : List DiscoveredSpec)
      → Kept ledger Passes specs (sift judge (open_candidates ledger specs)).0
  unfolding open_candidates sift
  sift-Kept [] = no_specs
  sift-Kept (found ∷ specs) =
      let later = sift-Kept specs in
      let rest = open_candidates ledger specs in
      if_cases
        (λ (candidates : List Candidate).
          Kept ledger Passes (found ∷ specs) (sift judge candidates).0)
        (any is_done_row (rows_at ledger found.spec.id found.spec_sha)) rest
        (open_candidate ledger found ∷ rest)
        (λ e. done_with (λ o. o ((is_done_iff found ledger).0 e)) later)
        (λ e.
          sift_over-Kept found specs (judge (open_candidate ledger found)) (sift judge rest)
            (λ d. cc (e, (is_done_iff found ledger).1 d)) refl later)

module _ (classes : CharClasses) (repr : Text → Text) where
  -- `_refuse` has nothing against the candidate, and it is not the one to hold of two specs that clash
  -- on a removed name.
  abbrev pub LetsPass : Night → Candidate → Type 0
  LetsPass night c =
      (refuse classes repr (scan_of night)
          (ancestor_branches c.spec.id (edges_of (night.discovered).0)) true c
        ≡ none)
      × ¬ ClashesOn night c.spec.id

  -- Without stacking, the queue is a stable sort by priority of the candidates of the discovered specs
  -- that are open, that `_refuse` lets pass on the facts of the night's scan, and that are not the ones
  -- to hold in a clash on a removed name with another open spec or with one that waits by
  -- `has_waiting`: it is sorted, it holds those and no others, and those of one priority stand in the
  -- order that their specs were discovered in, as often as they were. A spec is open if no task at its
  -- id and sha is done, and its candidate resumes the last of those tasks that may be queued again.
  pub build_queue-unstacked :
      (night : Night)
      → (outcome : List Candidate × List Refusal) × (passing : List Candidate) × (build_queue
            classes repr night false
          ≡ some outcome)
        × Kept (rows_of night.ledger) (LetsPass night) (night.discovered).0 passing
        × IsSorted outcome.0
        × ((p : ℤ) → at_priority p outcome.0 ≡ at_priority p passing)
        × ((c : Candidate) → In c outcome.0 ↔ In c passing)
  unfolding build_queue sift_night judge_of night_candidates
  build_queue-unstacked night =
      let judge = night_judge classes repr night false in
      let passing = (sift judge (night_candidates night)).0 in
      let scan = scan_of night in
      (
        (sort_by_priority passing, (sift_night classes repr night false).1),
        passing,
        refl,
        sift-Kept judge (LetsPass night)
            (λ c. ground (
              arith,
              judged-none_iff c
                  (refuse classes repr scan (ancestor_branches c.spec.id scan.edges) true c)
                  (find_held c.spec.id (held_on night)),
              held_on-none_iff night c.spec.id,
            ))
            (rows_of night.ledger) (night.discovered).0,
        sort_by_priority-IsSorted passing,
        (λ p. sort_by_priority_stable p passing),
        (λ c. sort_by_priority_iff c passing),
      )
