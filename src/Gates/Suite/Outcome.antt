-- ===== src/Gates/Suite/Outcome.antt =====
-- What a whole run of the suite guarantees.
use saffron.Prelude.{
  ◌≡◌, refl, ◌≢◌, ◌↔◌, inl, inr, true, not, List, [], ◌∷◌, ◌++◌, arith, Text, codes, same, same_iff,
  elem, Bool-cases, if_cases,
}
use saffron.Intake.{Criterion}
use saffron.Policy.{Policy, effective_risk}
use saffron.Gates.Contract.{GateResult, skip, error}
use saffron.Gates.Census.{collected_names, census_gate, census_between}
use saffron.Gates.Criteria.{criteria_gate, criteria_between, side_of, enumerated, check_keys}
use saffron.Gates.Comparison.{size_blocks, advisory}
use saffron.Gates.Size.Verdict.{size_gate-error_iff}
use saffron.Gates.Execution.{Host}
use saffron.Gates.Runner.{Mutator}
use saffron.Gates.Suite.{Tree, GateSuite, Readers, early_results, run_early, run_all, baseline}

size_blocks_iff : (tier : Text) → (size_blocks tier ≡ true) ↔ (tier ≡ codes "elevated")
unfolding size_blocks
size_blocks_iff tier = same_iff tier (codes "elevated")

same_self : (a : Text) → same a a ≡ true
same_self a = (same_iff a a).1 refl

-- Where the tier is not `elevated`, the size gate is advisory.
advisory_size :
    (tier : Text) (policy : Policy)
    → tier ≢ codes "elevated"
    → elem (codes "size") (advisory tier policy) ≡ true
unfolding advisory
advisory_size tier policy h =
    if_cases (λ names. elem (codes "size") names ≡ true) (size_blocks tier) _ _
      (λ e. absurd (h ((size_blocks_iff tier).0 e))) (λ e. ground (arith, same_self (codes "size")))

census_gate_first : (head : List GateResult) → (census_gate [] head).status ≡ skip
unfolding census_gate census_between collected_names
census_gate_first head = refl

criteria_gate_first :
    (acceptance : List Criterion) (head : List GateResult)
    → (criteria_gate acceptance [] head).status ≡ skip
unfolding criteria_gate criteria_between side_of enumerated check_keys
criteria_gate_first [] head = refl
criteria_gate_first (criterion ∷ acceptance) head = refl

module _ {World : Type 0} (host : Host World) (mutator : Mutator World) (tree : Tree World)
    (readers : Readers) (suite : GateSuite) where
  -- The first two results, the size gate's and the rest of a run.
  abbrev pub HasSize : (GateResult → Type 0) → List GateResult → Type 0
  HasSize P (scope ∷ integrity ∷ size ∷ results) = P size
  HasSize P _ = ⊥

  -- The third result of a run, which is the size gate's, is an error only if the run's effective
  -- risk is `elevated`.
  pub run_all-size :
      (prior : List GateResult) (exempt : List Text) (world : World)
      → let run = (run_all host mutator tree readers suite prior exempt world).0 in
        HasSize (λ size. size.status ≡ error → run.effective_risk ≡ codes "elevated") run.results
  unfolding run_all run_early early_results
  run_all-size prior exempt world broken =
      let changed = tree.changed_files world suite.diff_base in
      let diff = tree.patch world suite.diff_base in
      let tier = effective_risk suite.spec.risk changed suite.policy.elevate_on in
      let blocking = not (elem (codes "size") (advisory tier suite.policy)) in
      elim (Bool-cases (same tier (codes "elevated"))) [
        | inl e ↦ (same_iff tier (codes "elevated")).0 e
        | inr e ↦
            let blocks =
              ((size_gate-error_iff host.classes diff suite.spec.spec_type suite.spec.touches
                  blocking suite.policy.integrity.test_paths).0.0
                broken).0 in
            absurd (
              ground (
                arith,
                advisory_size tier suite.policy
                    (λ t. ground (arith, same_iff tier (codes "elevated"))),
              ))
      ]

  -- The last two results.
  abbrev pub EndsIn : (GateResult → GateResult → Type 0) → List GateResult → Type 0
  EndsIn P results =
      (early : List GateResult) × (census : GateResult) × (criteria : GateResult) × ((results
          ≡ early ++ census ∷ criteria ∷ [])
        × P census criteria)

  -- At the base, where there are no earlier results, the census and the criteria gate end the run
  -- and both skip.
  pub baseline_skips :
      (world : World)
      → EndsIn
          (λ census criteria. (census.status ≡ skip) × (criteria.status ≡ skip))
          (baseline host mutator tree readers suite world).0.results
  unfolding baseline run_all
  baseline_skips world =
      let changed = tree.changed_files world suite.diff_base in
      let tier = effective_risk suite.spec.risk changed suite.policy.elevate_on in
      let results =
        (run_early host mutator tree readers suite changed (tree.patch world suite.diff_base) tier
          [] [] world).0 in
      (
        results,
        census_gate [] results,
        criteria_gate suite.spec.acceptance [] results,
        (refl, (census_gate_first results, criteria_gate_first suite.spec.acceptance results)),
      )
