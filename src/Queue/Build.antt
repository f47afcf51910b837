-- ===== src/Queue/Build.antt =====
-- `build_queue` of saffron/scheduler.py, over what one night's scan gives.
pub mod Accounts
pub mod Outcome
pub mod Resumes
pub mod Clashing
pub mod Unstacked
use saffron.Prelude.{
  ℕ, Bool, true, false, not, ◌&&◌, ◌||◌, List, [], ◌∷◌, ◌++◌, map, Option, none, some, Text, codes,
  same, elem, filter, any, is_empty, length, ◌+◌, ℤ, lt_ℤ, split_on, if◌then◌else◌,
}
use saffron.Intake.{Spec}
use saffron.Gates.Contract.{CharClasses}
use saffron.Queue.Walk.{Edges, ancestor_branches}
use saffron.Queue.Rows.{
  TaskRow, StackBase, Candidate, Refusal, RefusalKind, malformed_spec, depends_on, done_states,
  requeue_states, dependency_waiting_states, dependency_merged,
}
use saffron.Queue.Paths.{Marker, dangling_marker_refusals, retired_dirname}
use saffron.Queue.Names.{Held, removed_name_refusals, find_held}
use saffron.Queue.Pulls.{PullRequest}
use saffron.Queue.Dependencies.{ScanFacts, States, states_of, refuse, is_waiting_state}
use saffron.Queue.Order.{stack_order, ids_of}
use saffron.Queue.Base.{Resolved, resolve_stack_base, text_or_empty}
use saffron.Queue.Night.{
  DiscoveredSpec, Discovery, DiscoveryFailure, Night, all_dependencies, candidate_of, credited_of,
  edges_of, has_no_spec, is_done_row, is_requeued_row, landed_if, landed_of, last_part, last_task,
  malformed, malformed_retired, merged_anywhere_of, merged_of, name_of, open_candidates,
  retired_ids, rows_at, rows_of, spec_ids, states_at_current_sha_of,
}

-- The two results of the loop over the candidates: `kept` and the new refusals.
abbrev pub judged : Candidate → Option (RefusalKind × Text) → Option Text → Option Refusal
judged c (some (kind, reason)) held = some (record { path = c.path; reason = reason; kind = kind })
judged c none (some reason) = some (record { path = c.path; reason = reason; kind = depends_on })
judged c none none = none

abbrev pub Judge : Type 0
Judge = Candidate → Option Refusal

abbrev pub sift_over :
    Candidate → Option Refusal → List Candidate × List Refusal → List Candidate × List Refusal
sift_over c (some refusal) (kept, refusals) = (kept, refusal ∷ refusals)
sift_over c none (kept, refusals) = (c ∷ kept, refusals)

unfoldable pub sift : Judge → List Candidate → List Candidate × List Refusal
sift judge [] = ([], [])
sift judge (c ∷ candidates) = sift_over c (judge c) (sift judge candidates)

-- `kept.sort(key=lambda c: c.spec.priority)`, which is stable.
unfoldable pub insert_candidate : Candidate → List Candidate → List Candidate
insert_candidate c [] = c ∷ []
insert_candidate c (d ∷ queue) =
    let rest = insert_candidate c queue in
    if lt_ℤ d.spec.priority c.spec.priority then d ∷ rest else c ∷ d ∷ queue

unfoldable pub sort_by_priority : List Candidate → List Candidate
unfolding insert_candidate
sort_by_priority [] = []
sort_by_priority (c ∷ kept) = insert_candidate c (sort_by_priority kept)

abbrev pub base_id_of : Option StackBase → List Text
base_id_of none = []
base_id_of (some found) = found.spec_id ∷ []

abbrev pub first_of : List Text → Option Text
first_of [] = none
first_of (id ∷ ids) = some id

-- The order with the stack base that it carries, if a taken spec names it or one of its chain.
abbrev pub carry : Resolved → Option StackBase → List Candidate → List Candidate
carry resolved none ordered = ordered
carry resolved (some found) ordered =
    if any
      (λ (c : Candidate).
        any (λ dep. elem dep (found.spec_id ∷ resolved.chain_ids)) c.spec.depends_on)
      ordered
    then map (λ (c : Candidate). record c { stack_base = some found }) ordered
    else ordered

unfoldable pub order_resolved :
    List Text → List Candidate → List Refusal → Resolved → List Candidate × List Refusal
unfolding stack_order
order_resolved on_default_branch kept refusals resolved =
    let satisfied = on_default_branch ++ (resolved.chain_ids ++ base_id_of resolved.stack_base) in
    let (ordered, order_refusals) =
      stack_order
        (record {
          causes = resolved.causes;
          other_qualifying = resolved.other_qualifying;
          stack_base_id = first_of (base_id_of resolved.stack_base);
        })
        satisfied kept in
    (carry resolved resolved.stack_base ordered, refusals ++ order_refusals)

unfoldable pub scan_of : Night → ScanFacts
unfolding merged_anywhere_of states_at_current_sha_of retired_ids edges_of
scan_of night = record {
  open_prs = night.open_prs;
  merged_anywhere = merged_anywhere_of night;
  states_at_current_sha = states_at_current_sha_of (rows_of night.ledger) (night.discovered).0;
  retired = (retired_ids night.retired_directory).0;
  unreadable_retired = length (retired_ids night.retired_directory).1;
  protected = night.protected;
  markers = night.markers;
  edges = edges_of (night.discovered).0;
}

-- The refusals that are no candidate's own.
unfoldable pub scan_refusals : Night → List Refusal
unfolding retired_ids dangling_marker_refusals
scan_refusals night =
    let (specs, failures) = night.discovered in
    let (retired, retired_failures) = retired_ids night.retired_directory in
    map malformed failures
    ++ (map malformed_retired retired_failures
        ++ dangling_marker_refusals night.markers (spec_ids specs ++ retired)
            (length failures + length retired_failures))

-- Whether the spec has a waiting task at its current sha. A dict's entry is that of the last spec of
-- an id.
abbrev pub states_or_nothing : Option (List Text) → List Text
states_or_nothing none = []
states_or_nothing (some states) = states

unfoldable pub has_waiting : States → Spec → Bool
unfolding dependency_waiting_states
has_waiting states spec = any is_waiting_state (states_or_nothing (states_of states spec.id))

unfoldable pub night_candidates : Night → List Candidate
unfolding open_candidates
night_candidates night = open_candidates (rows_of night.ledger) (night.discovered).0

-- `removed_name_held`
unfoldable pub held_on : Night → Held
unfolding scan_of night_candidates removed_name_refusals has_waiting
held_on night =
    let scan = scan_of night in
    removed_name_refusals (has_waiting scan.states_at_current_sha) scan.edges
      (ids_of (night_candidates night))
      (map (λ (found : DiscoveredSpec). found.spec) (night.discovered).0)

module _ (classes : CharClasses) (repr : Text → Text) where
  -- One candidate's refusal: its own, else the name that holds it.
  unfoldable pub judge_of : ScanFacts → Held → Bool → Judge
  unfolding refuse ancestor_branches find_held
  judge_of scan held stack c =
      judged c (refuse classes repr scan (ancestor_branches c.spec.id scan.edges) (not stack) c)
        (find_held c.spec.id held)

  -- The candidates' refusals on one night.
  abbrev pub night_judge : Night → Bool → Judge
  night_judge night stack = judge_of (scan_of night) (held_on night) stack

  -- `kept` and the refusals up to `if stack`.
  unfoldable pub sift_night : Night → Bool → List Candidate × List Refusal
  unfolding scan_refusals sift night_candidates judge_of scan_of held_on
  sift_night night stack =
      let (kept, refused) = sift (night_judge night stack) (night_candidates night) in
      (kept, scan_refusals night ++ refused)

  abbrev pub order_night :
      ScanFacts
      → Option (List TaskRow)
      → List Candidate × List Refusal
      → Option (List Candidate × List Refusal)
  order_night scan ledger (kept, refusals) =
      let on_default_branch = scan.retired ++ scan.merged_anywhere in
      elim (resolve_stack_base ledger kept (ids_of kept) on_default_branch scan.edges) [
        | none ↦ none
        | some resolved ↦ some (order_resolved on_default_branch kept refusals resolved)
      ]

  -- `build_queue`. `none` is the source's failed assertion.
  unfoldable pub build_queue : Night → Bool → Option (List Candidate × List Refusal)
  unfolding sift_night resolve_stack_base order_resolved sort_by_priority
  build_queue night stack =
      let (kept, refusals) = sift_night night stack in
      let ordered = order_night (scan_of night) night.ledger (kept, refusals) in
      if stack then ordered else some (sort_by_priority kept, refusals)
