-- ===== src/Queue/Dependencies/Satisfied.antt =====
-- The meaning of `_dependency_refusal`, and of the loop over `depends_on`.
use saffron.Prelude.{
  ℕ, ◌≡◌, ◌↔◌, ◌⊎◌, List, [], ◌∷◌, Option, none, some, arith, Text, Elem, elem_iff, any_iff, Any,
  All,
}
use saffron.Queue.Rows.{dependency_waiting_states}
use saffron.Queue.Dependencies.{
  States, states_of, is_waiting_state, states_refusal, dependency_refusal, ScanFacts,
  sort_dependencies,
}

-- Some task at the current sha is waiting.
abbrev pub Waits : Option (List Text) → Type 0
Waits none = ⊥
Waits (some states) = Any (λ state. Elem state dependency_waiting_states) states

states_refusal-none_iff :
    (dep : Text) (unreadable_retired : ℕ) (states : Option (List Text))
    → (states_refusal dep unreadable_retired states ≡ none) ↔ Waits states
unfolding states_refusal
states_refusal-none_iff dep unreadable_retired none = ground arith
states_refusal-none_iff dep unreadable_retired (some []) = ground arith
states_refusal-none_iff dep unreadable_retired (some (state ∷ states)) = ground (
  arith,
  any_iff is_waiting_state (λ s. Elem s dependency_waiting_states)
      (λ s. elem_iff s dependency_waiting_states) (state ∷ states),
)

-- A parent that is merged, retired or waiting at its current sha.
abbrev pub Satisfied : List Text → States → List Text → Text → Type 0
Satisfied merged_anywhere states_oldest_first retired dep =
    Elem dep merged_anywhere ⊎ (Elem dep retired ⊎ Waits (states_of states_oldest_first dep))

-- `_dependency_refusal` returns no reason exactly if the parent merged at some sha, is retired, or
-- has a task at its current sha in a waiting state, whatever its other tasks there are.
pub dependency_refusal-none_iff :
    (dep : Text) (merged_anywhere : List Text) (states_oldest_first : States) (retired : List Text)
    (unreadable_retired : ℕ)
    → (dependency_refusal dep merged_anywhere states_oldest_first retired unreadable_retired ≡ none)
      ↔ Satisfied merged_anywhere states_oldest_first retired dep
unfolding dependency_refusal
dependency_refusal-none_iff dep merged_anywhere states_oldest_first retired unreadable_retired =
    ground (
      arith,
      elem_iff dep merged_anywhere,
      elem_iff dep retired,
      states_refusal-none_iff dep unreadable_retired (states_of states_oldest_first dep),
    )

abbrev pub SatisfiedIn : ScanFacts → Text → Type 0
SatisfiedIn scan dep = Satisfied scan.merged_anywhere scan.states_at_current_sha scan.retired dep

-- No parent is unmet exactly if all are satisfied.
pub sort_dependencies-unmet_iff :
    (scan : ScanFacts) (deps : List Text)
    → ((sort_dependencies scan deps).0 ≡ []) ↔ All (SatisfiedIn scan) deps
unfolding sort_dependencies
sort_dependencies-unmet_iff scan [] = ground arith
sort_dependencies-unmet_iff scan (dep ∷ deps) = ground (
  arith,
  sort_dependencies-unmet_iff scan deps,
  dependency_refusal-none_iff dep scan.merged_anywhere scan.states_at_current_sha scan.retired
      scan.unreadable_retired,
)
