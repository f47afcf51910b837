-- ===== src/Queue/Night.antt =====
-- What one night's scan gives `build_queue` of saffron/scheduler.py: the specs and failures found, and
-- from the ledger's rows the candidates, what has merged or landed, the states and the edges, with
-- `_retired_ids`. The scan, the rows, GitHub's answer and `pushed_landed` are parameters.
use saffron.Prelude.{
  ℕ, Bool, true, false, not, ◌&&◌, List, [], ◌∷◌, ◌++◌, map, Option, none, some, Text, codes, same,
  elem, filter, any, is_empty, split_on, if◌then◌else◌,
}
use saffron.Intake.{Spec}
use saffron.Queue.Walk.{Edges}
use saffron.Queue.Rows.{
  TaskRow, Candidate, Refusal, malformed_spec, done_states, requeue_states, dependency_merged,
}
use saffron.Queue.Paths.{Marker, retired_dirname}
use saffron.Queue.Pulls.{PullRequest}
use saffron.Queue.Dependencies.{States}
use saffron.Queue.Base.{text_or_empty}

-- `DiscoveredSpec` and `DiscoveryFailure` of saffron/intake.py.
pub record DiscoveredSpec : Type 0 where
  pub path : Text
  pub spec : Spec
  pub spec_sha : Text

pub record DiscoveryFailure : Type 0 where
  pub path : Text
  pub reason : Text
  pub spec : Option Spec

abbrev pub Discovery : Type 0
Discovery = List DiscoveredSpec × List DiscoveryFailure

-- `discover_specs(directory)`, that of `done/` if it is a directory, the repository's rows if it has
-- an id, and the arguments of `build_queue`.
pub record Night : Type 0 where
  pub discovered : Discovery
  pub retired_directory : Option Discovery
  pub ledger : Option (List TaskRow)
  pub open_prs : List PullRequest
  pub protected : List Text
  pub markers : List Marker
  pub pushed_landed : Option (Text → Bool)

abbrev pub rows_of : Option (List TaskRow) → List TaskRow
rows_of none = []
rows_of (some rows) = rows

-- `existing.get((spec_id, spec_sha), ())`
unfoldable pub rows_at : List TaskRow → Text → Text → List TaskRow
rows_at rows spec_id spec_sha =
    filter (λ row. same spec_id row.spec_id && same spec_sha row.spec_sha) rows

abbrev pub last_task : List TaskRow → Option ℕ
last_task [] = none
last_task (row ∷ rows) = elim (last_task rows) [ none ↦ some row.task_id | some id ↦ some id ]

abbrev pub is_done_row : TaskRow → Bool
is_done_row row = elem row.state done_states

abbrev pub is_requeued_row : TaskRow → Bool
is_requeued_row row = elem row.state requeue_states

abbrev pub candidate_of : DiscoveredSpec → List TaskRow → Candidate
candidate_of found rows = record {
  path = found.path;
  spec = found.spec;
  spec_sha = found.spec_sha;
  task_id = last_task (filter is_requeued_row rows);
  stack_base = none;
}

-- The loop over the specs.
unfoldable pub open_candidates : List TaskRow → List DiscoveredSpec → List Candidate
unfolding rows_at done_states requeue_states
open_candidates ledger [] = []
open_candidates ledger (found ∷ specs) =
    let rest = open_candidates ledger specs in
    let rows = rows_at ledger found.spec.id found.spec_sha in
    if any is_done_row rows then rest else candidate_of found rows ∷ rest

-- The ids of the rows in the state MERGED, at whatever sha.
unfoldable pub merged_of : List TaskRow → List Text
unfolding dependency_merged
merged_of ledger =
    map (λ (row : TaskRow). row.spec_id) (filter (λ row. same row.state dependency_merged) ledger)

-- The loop over the rows for a push that landed, of an id that some `depends_on` names and that is
-- not merged.
unfoldable pub landed_of :
    (Text → Bool) → List Text → List Text → List Text → List TaskRow → List Text
landed_of pushed_landed named merged landed [] = landed
landed_of pushed_landed named merged landed (row ∷ rows) =
    let pending = elem row.spec_id named && not (elem row.spec_id merged) in
    let pushed_sha = text_or_empty row.pushed_sha in
    landed_of pushed_landed named merged
      (if (pending && not (elem row.spec_id landed))
          && (not (is_empty pushed_sha) && pushed_landed pushed_sha)
        then row.spec_id ∷ landed
        else landed)
      rows

unfoldable pub all_dependencies : List DiscoveredSpec → List Text
all_dependencies [] = []
all_dependencies (found ∷ specs) = found.spec.depends_on ++ all_dependencies specs

abbrev pub landed_if : Option (Text → Bool) → List Text → List Text → List TaskRow → List Text
landed_if none named merged rows = []
landed_if (some pushed_landed) named merged rows = landed_of pushed_landed named merged [] rows

-- `merged_anywhere`, with what has landed.
unfoldable pub merged_anywhere_of : Night → List Text
unfolding merged_of landed_of all_dependencies
merged_anywhere_of night =
    let rows = rows_of night.ledger in
    let merged = merged_of rows in
    merged ++ landed_if night.pushed_landed (all_dependencies (night.discovered).0) merged rows

unfoldable pub states_at_current_sha_of : List TaskRow → List DiscoveredSpec → States
unfolding rows_at
states_at_current_sha_of ledger specs =
    map
      (λ (found : DiscoveredSpec). (
        found.spec.id,
        map (λ (row : TaskRow). row.state) (rows_at ledger found.spec.id found.spec_sha),
      ))
      specs

unfoldable pub edges_of : List DiscoveredSpec → Edges
edges_of specs = map (λ (found : DiscoveredSpec). (found.spec.id, found.spec.depends_on)) specs

abbrev pub spec_ids : List DiscoveredSpec → List Text
spec_ids specs = map (λ (found : DiscoveredSpec). found.spec.id) specs

-- `path.name`
abbrev pub last_part : Text → List Text → Text
last_part part [] = part
last_part part (next ∷ parts) = last_part next parts

abbrev pub name_of : Text → Text
name_of path = last_part [] (split_on b'/' path)

-- The ids of the failures that read cleanly, and the failures that did not.
abbrev pub credited_of : List DiscoveryFailure → List Text
credited_of [] = []
credited_of (failure ∷ failures) = elim (failure.spec) [
  | some spec ↦ spec.id ∷ credited_of failures
  | none ↦ credited_of failures
]

abbrev pub has_no_spec : Option Spec → Bool
has_no_spec none = true
has_no_spec (some spec) = false

-- `_retired_ids`
unfoldable pub retired_ids : Option Discovery → List Text × List DiscoveryFailure
unfolding split_on
retired_ids none = ([], [])
retired_ids (some (shipped, unparseable)) = (
  spec_ids shipped ++ credited_of unparseable,
  filter
      (λ failure. not (same (name_of failure.path) (codes "README.md")) && has_no_spec failure.spec)
      unparseable,
)

abbrev pub malformed : DiscoveryFailure → Refusal
malformed failure = record { path = failure.path; reason = failure.reason; kind = malformed_spec }

abbrev pub malformed_retired : DiscoveryFailure → Refusal
malformed_retired failure = record {
  path = failure.path;
  reason =
      codes "retired to "
      ++ (retired_dirname
          ++ (codes "/ but does not parse, so it credits no dependency: " ++ failure.reason));
  kind = malformed_spec;
}
