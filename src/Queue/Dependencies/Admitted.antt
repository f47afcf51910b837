-- ===== src/Queue/Dependencies/Admitted.antt =====
-- The meaning of `_refuse` as a whole, from that of its parts.
use saffron.Prelude.{
  ◌≡◌, refl, sym, subst, ◌↔◌, ◌⊎◌, inl, inr, Bool, true, not, ◌&&◌, List, [], ◌∷◌, none, arith,
  Text, codes, Elem, elem, All, filter, split_on, Option-cases,
}
use saffron.Intake.{Spec}
use saffron.Gates.Contract.{CharClasses}
use saffron.Queue.Rows.{Candidate}
use saffron.Queue.Paths.{criteria_texts}
use saffron.Queue.Paths.Declared.{
  AreMet, LeavesAlone, IsReached, protected_touch_refusal-none_iff, retirement_refusal-none_iff,
  unmatched_criterion_path-none_iff,
}
use saffron.Queue.Pulls.Exempt.{PassesPulls, open_pr_refusal-none_iff}
use saffron.Queue.Dependencies.{
  ScanFacts, sort_dependencies, dependency_refusal, depends_on_refusal, unmet_refusal, refuse,
}
use saffron.Queue.Dependencies.Satisfied.{SatisfiedIn, sort_dependencies-unmet_iff}
use saffron.Queue.Dependencies.Chain.{OnOneChain, open_parents_refusal-none_iff}

-- The parents that are neither merged nor retired.
unfoldable pub open_of : ScanFacts → List Text → List Text
open_of scan deps =
    filter (λ dep. not (elem dep scan.merged_anywhere) && not (elem dep scan.retired)) deps

sort_dependencies-open :
    (scan : ScanFacts) (deps : List Text)
    → (sort_dependencies scan deps).0 ≡ []
    → (sort_dependencies scan deps).1 ≡ open_of scan deps
unfolding sort_dependencies open_of
sort_dependencies-open scan [] h = refl
sort_dependencies-open scan (dep ∷ deps) h =
    elim (Option-cases (
      dependency_refusal dep scan.merged_anywhere scan.states_at_current_sha scan.retired
        scan.unreadable_retired)) [
          | inl e ↦ ground (arith, e, h, sort_dependencies-open scan deps)
          | inr (reason, e) ↦ ground (arith, e, h)
        ]

unmet_refusal-none_iff :
    (scan : ScanFacts) (unmet open_deps : List Text)
    → (unmet_refusal scan.edges unmet open_deps ≡ none)
      ↔ ((unmet ≡ []) × OnOneChain scan.edges open_deps)
unmet_refusal-none_iff scan [] open_deps =
    let chain = open_parents_refusal-none_iff scan.edges open_deps in
    ((λ e. (refl, chain.0 e)), (λ h. chain.1 h.1))
unmet_refusal-none_iff scan (reason ∷ unmet) open_deps = ((λ e. cc), (λ h. cc (h.0)))

-- The parents of a spec that may run: all satisfied, and those that are still open on one chain.
abbrev pub MayStack : ScanFacts → Spec → Type 0
MayStack scan spec =
    All (SatisfiedIn scan) spec.depends_on × OnOneChain scan.edges (open_of scan spec.depends_on)

depends_on_refusal-none_iff :
    (scan : ScanFacts) (spec : Spec) → (depends_on_refusal scan spec ≡ none) ↔ MayStack scan spec
unfolding depends_on_refusal
depends_on_refusal-none_iff scan spec =
    let sorted = sort_dependencies scan spec.depends_on in
    let whole = unmet_refusal-none_iff scan sorted.0 sorted.1 in
    let satisfied = sort_dependencies-unmet_iff scan spec.depends_on in
    let same_open = sort_dependencies-open scan spec.depends_on in
    (
      (λ e.
          let (met, chain) = whole.0 e in
          (
            satisfied.0 met,
            subst (λ (t : List Text). OnOneChain scan.edges t) (same_open met) chain,
          )),
      (λ (met, chain).
          let none_unmet = satisfied.1 met in
          whole.1 (
            none_unmet,
            subst (λ (t : List Text). OnOneChain scan.edges t) (sym (same_open none_unmet)) chain,
          )),
    )

-- All that `_refuse` asks, with the dependencies only where it checks them.
abbrev pub Admits : CharClasses → ScanFacts → List Text → Bool → Candidate → Type 0
Admits classes scan ancestor_branches check_dependencies c =
    (All (λ entry. ¬ Elem (codes ".claude") (split_on b'/' entry)) c.spec.touches
      × All (LeavesAlone c.spec.touches c.spec.forbidden) scan.protected)
    × PassesPulls c scan.open_prs ancestor_branches
    × ((c.spec.touches ≡ []) ⊎ All (AreMet classes c.spec) (criteria_texts c.spec))
    × All (IsReached c.spec) scan.markers
    × (check_dependencies ≡ true → MayStack scan c.spec)

-- `_refuse` refuses nothing exactly if the spec's `touches` keep off `.claude` and the protected
-- paths, no open pull request stands in its way, its criteria name no path that it does not declare,
-- each of its retirement markers is in reach and, where dependencies are checked, every parent is
-- merged, retired or waiting and one of the parents still open has all the others on its chain.
pub refuse-none_iff :
    (classes : CharClasses) (repr : Text → Text) (scan : ScanFacts) (ancestor_branches : List Text)
    (check_dependencies : Bool) (c : Candidate)
    → (refuse classes repr scan ancestor_branches check_dependencies c ≡ none)
      ↔ Admits classes scan ancestor_branches check_dependencies c
unfolding refuse
refuse-none_iff classes repr scan ancestor_branches check_dependencies c =
    let declared =
      protected_touch_refusal-none_iff repr c.spec.touches scan.protected c.spec.forbidden in
    let pulls = open_pr_refusal-none_iff c scan.open_prs ancestor_branches in
    let criteria = unmatched_criterion_path-none_iff classes c.spec in
    let markers = retirement_refusal-none_iff c.spec scan.markers in
    let parents = depends_on_refusal-none_iff scan c.spec in ground arith
