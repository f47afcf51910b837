-- ===== src/Queue/Dependencies.antt =====
-- `_dependency_refusal` and `_refuse` of saffron/scheduler.py.
pub mod Satisfied
pub mod Chain
pub mod Admitted
use saffron.Prelude.{
  ℕ, Bool, true, false, not, ◌&&◌, ◌||◌, List, [], ◌∷◌, ◌++◌, map, Option, none, some, Text, codes,
  same, elem, filter, any, is_empty, join, decimal, length, ltb, sorted_set, ◌-◌, ◌==◌,
  if◌then◌else◌,
}
use saffron.Intake.{Spec}
use saffron.Gates.Contract.{CharClasses}
use saffron.Queue.Walk.{Edges, deepest_open_parent}
use saffron.Queue.Rows.{
  Candidate, RefusalKind, protected_touch, unmatched_criterion_path, retirement_marker, depends_on,
  dependency_waiting_states, dependency_dead_states, dependency_merged,
}
use saffron.Queue.Paths.{
  Marker, protected_touch_refusal, retirement_refusal, plural, retired_dirname, comma,
}
use saffron.Queue.Paths
use saffron.Queue.Pulls.{PullRequest, open_pr_refusal}

-- `states_oldest_first`, a dict whose keys are the scanned specs.
abbrev pub States : Type 0
States = List (Text × List Text)

-- Of two entries the later is the one that a dict keeps.
unfoldable pub states_of : States → Text → Option (List Text)
states_of [] id = none
states_of ((key, states) ∷ entries) id = elim (states_of entries id) [
  | some later ↦ some later
  | none ↦ if same key id then some states else none
]

-- `states[-1]`, of a list with this first state.
abbrev pub last_of : Text → List Text → Text
last_of state [] = state
last_of state (next ∷ states) = last_of next states

unfoldable pub unknown_reason : Text → ℕ → Text
unknown_reason dep unreadable_retired =
    codes "depends_on "
    ++ (dep
        ++ (codes " is not among the specs in this directory, not retired to "
            ++ (retired_dirname
                ++ (codes "/ as shipped, and no task in the ledger says it merged"
                    ++ (if unreadable_retired == 0
                        then []
                        else codes " — and "
                          ++ (decimal unreadable_retired
                              ++ (codes " file"
                                  ++ (plural unreadable_retired
                                      ++ (codes " in "
                                          ++ (retired_dirname
                                              ++ codes
                                                  "/ could not be read as a spec, so it declares no id to credit"))))))))))

unfoldable pub no_task_reason : Text → Text
no_task_reason dep =
    codes "depends_on "
    ++ (dep
        ++ codes
            " has no task at its current spec_sha, so nothing says it merged: it has not run, or not since it was last edited")

unfoldable pub dead_reason : Text → Text → Text
dead_reason dep state =
    codes "depends_on "
    ++ (dep
        ++ (codes " is "
            ++ (state
                ++ codes
                    ", which will not merge as it stands — a different fact about the night from a parent not yet run")))

unfoldable pub not_merged_reason : Text → Text → Text
unfolding dependency_merged
not_merged_reason dep state =
    codes "depends_on "
    ++ (dep ++ (codes " is " ++ (state ++ (codes ", which is not " ++ dependency_merged))))

abbrev pub is_waiting_state : Text → Bool
is_waiting_state state = elem state dependency_waiting_states

abbrev pub unmerged_reason : Text → Text → List Text → List Text → Text
unmerged_reason dep state states [] = not_merged_reason dep (last_of state states)
unmerged_reason dep state states (first ∷ dead) = dead_reason dep (last_of first dead)

-- The branches that read the states at the current sha.
unfoldable pub states_refusal : Text → ℕ → Option (List Text) → Option Text
unfolding dependency_waiting_states dependency_dead_states unknown_reason no_task_reason dead_reason
    not_merged_reason
states_refusal dep unreadable_retired none = some (unknown_reason dep unreadable_retired)
states_refusal dep unreadable_retired (some []) = some (no_task_reason dep)
states_refusal dep unreadable_retired (some (state ∷ states)) =
    if any is_waiting_state (state ∷ states)
    then none
    else some (
        unmerged_reason dep state states
          (filter (λ other. elem other dependency_dead_states) (state ∷ states)))

-- `_dependency_refusal`
unfoldable pub dependency_refusal : Text → List Text → States → List Text → ℕ → Option Text
unfolding states_refusal states_of
dependency_refusal dep merged_anywhere states_oldest_first retired unreadable_retired =
    if elem dep merged_anywhere
    then none
    else if elem dep retired
    then none
    else states_refusal dep unreadable_retired (states_of states_oldest_first dep)

-- What one scan knows, the same for every candidate.
pub record ScanFacts : Type 0 where
  pub open_prs : List PullRequest
  pub merged_anywhere : List Text
  pub states_at_current_sha : States
  pub retired : List Text
  pub unreadable_retired : ℕ
  pub protected : List Text
  pub markers : List Marker
  pub edges : Edges

-- The loop over `depends_on`: `unmet` and `open_deps`.
unfoldable pub sort_dependencies : ScanFacts → List Text → List Text × List Text
unfolding dependency_refusal
sort_dependencies scan [] = ([], [])
sort_dependencies scan (dep ∷ deps) =
    let (unmet, open_deps) = sort_dependencies scan deps in
    elim (dependency_refusal dep scan.merged_anywhere scan.states_at_current_sha scan.retired
      scan.unreadable_retired) [
        | some reason ↦ (reason ∷ unmet, open_deps)
        | none ↦ (
          unmet,
          if not (elem dep scan.merged_anywhere) && not (elem dep scan.retired)
              then dep ∷ open_deps
              else open_deps,
        )
      ]

abbrev pub unmet_reason : Text → List Text → Text
unmet_reason reason [] = reason
unmet_reason reason (next ∷ unmet) =
    reason ++ (codes " (+" ++ (decimal (length (next ∷ unmet)) ++ codes " more unmet)"))

abbrev pub verb_of : ℕ → Text
verb_of n = if n == 1 then codes "is" else codes "are"

-- The name of the deepest parent, which is there whenever another is off its chain.
abbrev pub chosen_name : Option Text → Text
chosen_name none = codes "None"
chosen_name (some id) = id

unfoldable pub off_chain_reason : Option Text → List Text → Text
off_chain_reason deepest off_chain =
    codes "depends_on "
    ++ (join comma (sorted_set off_chain)
        ++ (codes " "
            ++ (verb_of (length off_chain)
                ++ (codes " outside "
                    ++ (chosen_name deepest
                        ++ codes
                            "'s depends_on chain, and no spec may stack on two unrelated open parents")))))

-- `len(open_deps) > 1` and an open parent off the deepest one's chain.
unfoldable pub open_parents_refusal : Edges → List Text → Option (RefusalKind × Text)
unfolding deepest_open_parent off_chain_reason
open_parents_refusal edges open_deps =
    let open_set = sorted_set open_deps in
    let (deepest, off_chain) = deepest_open_parent open_set open_set edges in
    if ltb 1 (length open_deps) && not (is_empty off_chain)
    then some (depends_on, off_chain_reason deepest off_chain)
    else none

abbrev pub unmet_refusal : Edges → List Text → List Text → Option (RefusalKind × Text)
unmet_refusal edges [] open_deps = open_parents_refusal edges open_deps
unmet_refusal edges (reason ∷ unmet) open_deps = some (depends_on, unmet_reason reason unmet)

unfoldable pub depends_on_refusal : ScanFacts → Spec → Option (RefusalKind × Text)
unfolding sort_dependencies open_parents_refusal
depends_on_refusal scan spec =
    let (unmet, open_deps) = sort_dependencies scan spec.depends_on in
    unmet_refusal scan.edges unmet open_deps

-- `_refuse`: the refusals in their order, the first that there is.
unfoldable pub refuse :
    CharClasses
    → (Text → Text)
    → ScanFacts
    → List Text
    → Bool
    → Candidate
    → Option (RefusalKind × Text)
unfolding protected_touch_refusal open_pr_refusal Paths.unmatched_criterion_path retirement_refusal
    depends_on_refusal
refuse classes repr scan ancestor_branches check_dependencies candidate =
    let spec = candidate.spec in
    elim (protected_touch_refusal repr spec.touches scan.protected spec.forbidden) [
      | some reason ↦ some (protected_touch, reason)
      | none ↦ elim (open_pr_refusal candidate scan.open_prs ancestor_branches) [
        | some refused ↦ some refused
        | none ↦ elim (Paths.unmatched_criterion_path classes spec) [
          | some escaped ↦ some (
            unmatched_criterion_path,
            codes "acceptance criteria name "
                ++ (repr escaped ++ codes ", which no touches pattern matches"),
          )
          | none ↦ elim (retirement_refusal spec scan.markers) [
            | some retirement ↦ some (retirement_marker, retirement)
            | none ↦ if check_dependencies then depends_on_refusal scan spec else none
          ]
        ]
      ]
    ]
