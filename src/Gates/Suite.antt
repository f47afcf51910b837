-- ===== src/Gates/Suite.antt =====
-- `GateSuite._run` of saffron/gates/suite.py: the whole suite over one tree.
pub mod Outcome
use saffron.Prelude.{
  Bool, true, false, not, List, [], ◌∷◌, ◌++◌, Option, none, some, Text, codes, elem,
}
use saffron.Intake.{Criterion}
use saffron.Policy.{Policy, effective_risk}
use saffron.Gates.Contract.{CharClasses, GateResult}
use saffron.Gates.Scope.{scope_gate}
use saffron.Gates.Patch.{Digits}
use saffron.Gates.Integrity.{integrity_gate}
use saffron.Gates.Size.{size_gate}
use saffron.Gates.Derived.{Expressions, constant_mutants}
use saffron.Gates.Execution.{Host, run_gate}
use saffron.Gates.Runner.{Mutator, run_suite, tests_gate}
use saffron.Gates.Selection.{Plan, stop, proceed, plan_revert}
use saffron.Gates.Revert.{Worktree, RevertedRun, not_restored, ran_reverted, revert_gate}
use saffron.Gates.Census.{census_gate, committed_gate}
use saffron.Gates.Criteria.{criteria_gate}
use saffron.Gates.Comparison.{SuiteRun, SuiteComparison, advisory, compare_suites}

-- `SuiteSpec`
pub record SuiteSpec : Type 0 where
  pub risk : Text
  pub touches : List Text
  pub forbidden : List Text
  pub acceptance : List Criterion
  pub spec_type : Text

-- `Tree`: what the worktree answers, and the two ends of the context manager `reverted`, which
-- checks source out at the base and restores it, and may raise. The mutator and the executor
-- stand beside it.
pub record Tree (World : Type 0) : Type 0 where
  pub changed_files : World → Text → List Text
  pub patch : World → Text → Text
  pub dirty_paths : World → List Text
  pub revert : World → Text → List Text → Option Text × World
  pub restore : World → Text → List Text → Option Text × World

pub record GateSuite : Type 0 where
  pub gates : List (Text × Text)
  pub spec : SuiteSpec
  pub policy : Policy
  pub diff_base : Text

-- `repr`, and the tables and expressions that the gates read a diff with.
pub record Readers : Type 0 where
  pub repr : Text → Text
  pub digits : Digits
  pub expressions : Expressions

module _ {World : Type 0} (host : Host World) (mutator : Mutator World) (tree : Tree World)
    (readers : Readers) (suite : GateSuite) where
  -- `with tree.reverted(…): run_tests(subset)`: a run of `run_gate` raises nothing.
  unfoldable pub run_reverted : Text → World → List Text → List Text → RevertedRun × World
  unfolding run_gate
  run_reverted tests world source subset =
      let (refusal, world') = tree.revert world suite.diff_base source in
      elim refusal [
        | some exc ↦ (not_restored exc, world')
        | none ↦
            let (result, world'') = run_gate host (codes "tests") tests subset world' in
            let (failure, world''') = tree.restore world'' suite.diff_base source in
            elim failure [
              | some exc ↦ (not_restored exc, world''')
              | none ↦ (ran_reverted result, world''')
            ]
      ]

  unfoldable pub worktree_at : Text → World → Worktree
  unfolding run_reverted
  worktree_at tests world = record {
    dirty = tree.dirty_paths world;
    run_reverted = λ source subset. (run_reverted tests world source subset).0;
  }

  abbrev pub after_plan : Text → World → Plan → World
  after_plan tests world (stop result) = world
  after_plan tests world (proceed source subset note) = (run_reverted tests world source subset).1

  -- The `revert` gate, of a suite that declares `tests`.
  unfoldable pub run_revert :
      Option Text
      → List GateResult
      → List GateResult
      → List Text
      → List Text
      → World
      → List GateResult × World
  unfolding worktree_at revert_gate plan_revert
  run_revert none prior declared changed exempt world = ([], world)
  run_revert (some tests) prior declared changed exempt world =
      let test_paths = suite.policy.integrity.test_paths in
      let acceptance = suite.spec.acceptance in
      (
        revert_gate (worktree_at tests world) prior declared acceptance changed test_paths exempt
            ∷ [],
        after_plan tests world (
            plan_revert prior declared acceptance changed test_paths (tree.dirty_paths world)
              exempt),
      )

  -- The results up to `committed`.
  unfoldable pub early_results :
      Text → List Text → Text → List GateResult → List GateResult → List Text → List GateResult
  unfolding scope_gate integrity_gate size_gate committed_gate advisory
  early_results diff changed tier declared reverted dirty =
      scope_gate changed suite.spec.touches (some diff) suite.spec.forbidden suite.policy.protected
      ∷ integrity_gate readers.repr readers.digits diff suite.policy.integrity suite.spec.touches
      ∷ size_gate host.classes diff suite.spec.spec_type suite.spec.touches
          (not (elem (codes "size") (advisory tier suite.policy))) suite.policy.integrity.test_paths
      ∷ (declared ++ (reverted ++ committed_gate dirty ∷ []))

  -- The results up to `committed`, from the tree's changed files and diff and their tier.
  unfoldable pub run_early :
      List Text → Text → Text → List GateResult → List Text → World → List GateResult × World
  unfolding early_results run_revert run_suite constant_mutants
  run_early changed diff tier prior exempt world =
      let derived =
        constant_mutants readers.expressions readers.digits diff suite.spec.acceptance
          suite.policy.witness suite.policy.integrity.test_paths in
      let (declared, world') =
        run_suite host (some mutator) suite.gates (suite.spec.acceptance ++ derived) world in
      let (reverted, world'') =
        run_revert (tests_gate suite.gates) prior declared changed exempt world' in
      (early_results diff changed tier declared reverted (tree.dirty_paths world''), world'')

  -- `_run`
  unfoldable pub run_all : List GateResult → List Text → World → SuiteRun × World
  unfolding run_early effective_risk census_gate criteria_gate
  run_all prior exempt world =
      let changed = tree.changed_files world suite.diff_base in
      let diff = tree.patch world suite.diff_base in
      let tier = effective_risk suite.spec.risk changed suite.policy.elevate_on in
      let (results, world') = run_early changed diff tier prior exempt world in
      (
        record {
          results =
              results
              ++ census_gate prior results ∷ criteria_gate suite.spec.acceptance prior results ∷ [];
          effective_risk = tier;
          advisory_gates = advisory tier suite.policy;
        },
        world',
      )

  unfoldable pub baseline : World → SuiteRun × World
  unfolding run_all
  baseline world = run_all [] [] world

  unfoldable pub against : SuiteRun → List Text → World → SuiteComparison × World
  unfolding run_all compare_suites
  against prior exempt world =
      let (run, world') = run_all prior.results exempt world in
      (compare_suites host.classes run prior, world')
