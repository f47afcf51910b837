-- ===== src/Queue/Base.antt =====
-- The stack base of saffron/scheduler.py: `_stack_base_candidate` and `_resolve_stack_base`, over
-- the ledger's rows of the repository, oldest first.
pub mod Chosen
use saffron.Prelude.{
  ℕ, Bool, true, false, not, ◌&&◌, ◌||◌, List, [], ◌∷◌, ◌++◌, map, Option, none, some, Text, codes,
  same, elem, filter, all, is_empty, length, leb, sorted_set, ◌==◌, if◌then◌else◌,
}
use saffron.Intake.{Spec}
use saffron.Queue.Walk.{Edges, reachable, branch_of, deepest_open_parent}
use saffron.Queue.Rows.{
  TaskRow, StackBase, Candidate, dependency_waiting_states, stale_rebuttal_unjudged,
}
use saffron.Queue.Order.{Causes}

abbrev pub run_to_pr_first : Text
run_to_pr_first = codes "run it to a pull request first"

abbrev pub merge_or_rerun : Text
merge_or_rerun = codes "merge it, or rerun it"

-- `column or ""`
abbrev pub text_or_empty : Option Text → Text
text_or_empty none = []
text_or_empty (some text) = text

abbrev pub is_hex_digit : ℕ → Bool
is_hex_digit c = (leb b'0' c && leb c b'9') || (leb b'a' c && leb c b'f')

-- `_RESOLVED_SHA.fullmatch(text)`
unfoldable pub is_resolved_sha : Text → Bool
is_resolved_sha text = all is_hex_digit text && (length text == 40 || length text == 64)

-- The answer on one parent: a base, or a cause and its remedy.
pub data BaseAnswer : Type 0 where
  base : StackBase → BaseAnswer
  unfit : Text → Text → BaseAnswer

-- `rows[-1]`, of a list with this first row.
abbrev pub last_row : TaskRow → List TaskRow → TaskRow
last_row row [] = row
last_row row (next ∷ rows) = last_row next rows

-- The checks on the newest waiting row. Its own `pr_url` is the one that `pr_url_by_task` holds
-- under its `task_id`.
unfoldable pub newest_answer : Text → TaskRow → BaseAnswer
unfolding stale_rebuttal_unjudged is_resolved_sha
newest_answer dep newest =
    let qualified : StackBase = record {
      spec_id = dep;
      task_id = newest.task_id;
      branch = text_or_empty newest.branch;
      chain_branches = [];
    } in
    if is_empty (text_or_empty newest.branch)
    then unfit (dep ++ codes "'s newest waiting task records no branch") run_to_pr_first
    else if stale_rebuttal_unjudged newest
    then unfit
        (dep
          ++ codes "'s newest waiting task is REBUTTAL_UNJUDGED and its latest run pushed nothing")
        merge_or_rerun
    else if not (is_resolved_sha (text_or_empty newest.pushed_sha))
    then unfit (dep ++ codes "'s newest waiting task records no pushed sha") run_to_pr_first
    else if is_empty (text_or_empty newest.pr_url)
    then unfit (dep ++ codes "'s newest waiting task has no pull request URL")
        (codes "run `saffron adopt " ++ (dep ++ codes " <pr>` first"))
    else base qualified

abbrev pub waiting_answer : Text → Bool → List TaskRow → BaseAnswer
waiting_answer dep has_rows [] =
    if has_rows
    then unfit (dep ++ codes " has no waiting task") merge_or_rerun
    else unfit (dep ++ codes " has no task recorded") run_to_pr_first
waiting_answer dep has_rows (row ∷ waiting) = newest_answer dep (last_row row waiting)

abbrev pub is_waiting_row : TaskRow → Bool
is_waiting_row row = elem row.state dependency_waiting_states

-- `ledger.tasks_by_spec_id`
unfoldable pub tasks_by_spec_id : List TaskRow → Text → List TaskRow
tasks_by_spec_id rows dep = filter (λ row. same dep row.spec_id) rows

-- `_stack_base_candidate`
unfoldable pub stack_base_candidate : List TaskRow → Text → BaseAnswer
unfolding newest_answer tasks_by_spec_id dependency_waiting_states
stack_base_candidate ledger dep =
    let rows = tasks_by_spec_id ledger dep in
    waiting_answer dep (not (is_empty rows)) (filter is_waiting_row rows)

-- The parents that `external` is built from, before they are a set.
unfoldable pub external_of : List Text → List Text → List Candidate → List Text
external_of kept_ids on_default_branch [] = []
external_of kept_ids on_default_branch (c ∷ kept) =
    filter (λ dep. not (elem dep kept_ids) && not (elem dep on_default_branch)) c.spec.depends_on
    ++ external_of kept_ids on_default_branch kept

-- One parent's answer, among `qualifying` or among `causes`.
abbrev pub sorted_by : Text → BaseAnswer → List StackBase × Causes → List StackBase × Causes
sorted_by dep (base found) (qualifying, causes) = (found ∷ qualifying, causes)
sorted_by dep (unfit cause remedy) (qualifying, causes) =
    (qualifying, (dep, cause, remedy) ∷ causes)

-- The loop over `external`: `qualifying` and `causes`. The source walks a set; the two dicts are
-- read by key alone, so the order does not show.
unfoldable pub sort_external : List TaskRow → List Text → List StackBase × Causes
unfolding stack_base_candidate
sort_external ledger [] = ([], [])
sort_external ledger (dep ∷ external) =
    sorted_by dep (stack_base_candidate ledger dep) (sort_external ledger external)

abbrev pub base_ids : List StackBase → List Text
base_ids bases = map (λ (b : StackBase). b.spec_id) bases

unfoldable pub find_base : Text → List StackBase → Option StackBase
find_base id [] = none
find_base id (found ∷ bases) =
    let rest = find_base id bases in if same id found.spec_id then some found else rest

-- What `_resolve_stack_base` returns.
pub record Resolved : Type 0 where
  pub stack_base : Option StackBase
  pub causes : Causes
  pub other_qualifying : List Text
  pub chain_ids : List Text

abbrev pub unresolved : Causes → Resolved
unresolved causes = record {
  stack_base = none;
  causes = causes;
  other_qualifying = [];
  chain_ids = [];
}

abbrev pub with_chain : Edges → Text → StackBase → StackBase
with_chain edges chosen_id found = record found {
  chain_branches = map branch_of (reachable chosen_id edges);
}

-- With a deepest parent among the qualifying ones. `none` stands for the source's assertion.
abbrev pub resolve_chosen :
    Edges → List StackBase → Causes → Option Text × List Text → Option Resolved
resolve_chosen edges qualifying causes (none, off_chain) = none
resolve_chosen edges qualifying causes (some chosen_id, off_chain) =
    elim (find_base chosen_id qualifying) [
      | none ↦ none
      | some found ↦ some (record {
        stack_base = some (with_chain edges chosen_id found);
        causes = causes;
        other_qualifying = filter (λ id. elem id (base_ids qualifying)) off_chain;
        chain_ids = reachable chosen_id edges;
      })
    ]

abbrev pub resolve_among : Edges → List Text → List StackBase × Causes → Option Resolved
resolve_among edges external ([], causes) = some (unresolved causes)
resolve_among edges external (found ∷ qualifying, causes) =
    resolve_chosen edges (found ∷ qualifying) causes
      (deepest_open_parent external (base_ids (found ∷ qualifying)) edges)

abbrev pub no_task_cause : Text → Text × Text × Text
no_task_cause dep = (dep, dep ++ codes " has no task recorded", run_to_pr_first)

abbrev pub resolve_external : Option (List TaskRow) → Edges → List Text → Option Resolved
resolve_external none edges external = some (unresolved (map no_task_cause external))
resolve_external (some ledger) edges external =
    resolve_among edges external (sort_external ledger external)

-- `_resolve_stack_base`. The rows are there exactly if `repo_id` is not `None`.
unfoldable pub resolve_stack_base :
    Option (List TaskRow) → List Candidate → List Text → List Text → Edges → Option Resolved
unfolding external_of sort_external deepest_open_parent find_base reachable branch_of
resolve_stack_base rows kept kept_ids on_default_branch edges =
    resolve_external rows edges (sorted_set (external_of kept_ids on_default_branch kept))
