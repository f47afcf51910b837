-- ===== src/Samples/Runs.antt =====
-- The theorems on runs of gates, on a host whose gates all print one result.
use saffron.Prelude.{
  ◌≡◌, refl, ◌≢◌, ◌↔◌, false, List, [], ◌∷◌, none, some, arith, Text, codes, same, starts_with, All,
  Elem, ◌-◌,
}
use saffron.Intake.{Criterion, Mutant}
use saffron.Policy.{Policy}
use saffron.Gates.Contract.{pos, GateResult, pass, fail, skip, error, identity}
use saffron.Gates.Census.Verdict.{IsCollected, files}
use saffron.Gates.Baseline.{counter, subtract_baseline, all_failures}
use saffron.Gates.Patch.{Digits, parse_diff}
use saffron.Gates.Integrity.{integrity_gate}
use saffron.Gates.Integrity.Verdict.{HasPatterns, ReadsAs, IsSound, integrity_gate-pass_iff}
use saffron.Gates.Glob.{matches}
use saffron.Gates.Selection.{
  gather, first_note, dropped_names, exempted_tests, second_note, sorted_pairs, proceed,
  plan_revert,
}
use saffron.Gates.Revert.{Worktree, ran_reverted, revert_gate}
use saffron.Gates.Selection.Choice.{IsPlanned, IsRunnable, IsRevertible, plan_revert-IsPlanned}
use saffron.Gates.Revert.Verdict.{PassedReverted, revert_gate_judges}
use saffron.Gates.Witness.{Trial, tested, witness_gate, declared_mutants}
use saffron.Gates.Witness.Verdict.{trials, FollowsFrom, witness_gate_follows}
use saffron.Gates.Witness.Survivors.{witness_gate_never_cancelled}
use saffron.Gates.Execution.{Host, completed, decoded, run_gate}
use saffron.Gates.Runner.{Mutator, in_place, run_witness, run_suite}
use saffron.Gates.Execution.Results.{IsUsable, run_gate-error_iff}
use saffron.Gates.Runner.Probe.{IsProbedAmong, run_witness-IsProbed}
use saffron.Gates.Runner.Order.{gates_of, names_of, behind_tests, run_suite-gates}
use saffron.Gates.Suite.{Tree, GateSuite, Readers, run_all}
use saffron.Gates.Suite.Outcome.{HasSize, run_all-size}
use saffron.Samples.Contract.{ascii}

abbrev test_a : Text
test_a = b'a' ∷ []

abbrev tests_name : Text
tests_name = b't' ∷ b'e' ∷ b's' ∷ b't' ∷ b's' ∷ []

-- The one test was run, and failed.
abbrev failing : GateResult
failing = record {
  schema_version = 1;
  gate = tests_name;
  status = fail;
  tool = some (b'p' ∷ []);
  collected = some (test_a ∷ []);
  uncollected = none;
  failures = record { file = b'f' ∷ []; line = none; code = test_a; message = [] } ∷ [];
  summary = [];
  duration_ms = none;
}

abbrev passing : GateResult
passing = record {
  schema_version = 1;
  gate = tests_name;
  status = pass;
  tool = some (b'p' ∷ []);
  collected = some (test_a ∷ []);
  uncollected = none;
  failures = [];
  summary = [];
  duration_ms = none;
}

abbrev host : Host Unit
host = record {
  execute = λ world argv. (
    completed (record { returncode = pos 1; stdout = []; stderr = []; timed_out = false }),
    world,
  );
  elapsed_ms = λ world. 0;
  decode = λ raw. decoded failing;
  repr = λ text. text;
  timeout_s = [];
  classes = ascii;
}

abbrev mutator : Mutator Unit
mutator = record { apply = λ world mutant. (in_place, world); undo = λ world mutant. (none, world) }

abbrev mutant : Mutant
mutant = record { file = b's' ∷ []; find = b'1' ∷ []; replace = b'2' ∷ [] }

abbrev with_mutant : Criterion
with_mutant = record {
  claim = [];
  witness = test_a;
  preserves = false;
  mutant = some mutant;
  subject = none;
  wrong_versions = [];
}

run_gate-error_iff_example :
    ((run_gate host tests_name (b'x' ∷ []) [] tt).0.status ≢ error)
    ↔ IsUsable host tests_name (host.execute tt ((b'x' ∷ []) ∷ [])).0
run_gate-error_iff_example = run_gate-error_iff host tests_name (b'x' ∷ []) [] tt

one_declared : declared_mutants (with_mutant ∷ []) ≢ []
unfolding declared_mutants
one_declared e = ground arith

dies : (run_witness host mutator (b'x' ∷ []) (with_mutant ∷ []) (some failing) tt).0.status ≡ pass
unfolding run_witness codes same starts_with
dies = refl

not_skipped :
    (run_witness host mutator (b'x' ∷ []) (with_mutant ∷ []) (some failing) tt).0.status ≢ skip
not_skipped e = ground (arith, dies)

run_witness-IsProbed_example :
    IsProbedAmong host mutator
      (b'x' ∷ [])
      (with_mutant ∷ [])
      (some (test_a ∷ []))
      tt
      (run_witness host mutator (b'x' ∷ []) (with_mutant ∷ []) (some failing) tt)
run_witness-IsProbed_example =
    run_witness-IsProbed host mutator (b'x' ∷ []) (with_mutant ∷ []) (some failing) tt one_declared
      not_skipped

abbrev gates : List (Text × Text)
gates = (b'l' ∷ [], b'x' ∷ []) ∷ (tests_name, b'y' ∷ []) ∷ []

run_suite-gates_example :
    (gates_of (run_suite host none gates [] tt).0 ≡ names_of gates)
    × (gates_of (run_suite host (some mutator) gates [] tt).0
        ≡ behind_tests (codes "witness") (names_of gates))
run_suite-gates_example = run_suite-gates host mutator gates [] tt

abbrev survives : Unit {0} → Mutant → Text → Trial × Unit {0}
survives world m witness = (tested passing, world)

witness_gate_follows_example :
    FollowsFrom survives
      (b'm' ∷ [])
      none
      (trials survives (b'm' ∷ []) none (declared_mutants (with_mutant ∷ [])) tt)
      (witness_gate survives (b'm' ∷ []) none (with_mutant ∷ []) tt).0
witness_gate_follows_example = witness_gate_follows survives (b'm' ∷ []) none (with_mutant ∷ []) tt

witness_gate_never_cancelled_example :
    let result = (witness_gate survives (b'm' ∷ []) none (with_mutant ∷ []) tt).0 in
    All
      (λ failure.
        counter ascii
          (subtract_baseline ascii (result ∷ []) (result ∷ []))
          (identity ascii result.gate failure)
        ≡ counter ascii (all_failures (result ∷ [])) (identity ascii result.gate failure))
      result.failures
witness_gate_never_cancelled_example =
    let result = (witness_gate survives (b'm' ∷ []) none (with_mutant ∷ []) tt).0 in
    witness_gate_never_cancelled survives (b'm' ∷ []) none (with_mutant ∷ []) tt ascii (result ∷ [])
      (result ∷ [])

-- Nothing at base, and one test at head.
abbrev at_base : List GateResult
at_base =
    record {
      schema_version = 1;
      gate = tests_name;
      status = pass;
      tool = none;
      collected = some [];
      uncollected = none;
      failures = [];
      summary = [];
      duration_ms = none;
    }
    ∷ []

abbrev source : List Text
source = (b's' ∷ []) ∷ []

abbrev test_paths : List Text
test_paths = (b'f' ∷ []) ∷ []

abbrev worktree : Worktree
worktree = record { dirty = []; run_reverted = λ reverted subset. ran_reverted passing }

plan_revert-IsPlanned_example :
    IsPlanned
      (IsRunnable []
        (λ name. IsCollected name at_base)
        (λ name. IsCollected name (passing ∷ []))
        [])
      (IsRevertible source test_paths [])
      (plan_revert at_base (passing ∷ []) [] source test_paths [] [])
plan_revert-IsPlanned_example =
    plan_revert-IsPlanned at_base (passing ∷ []) [] source test_paths [] []

goes_on :
    plan_revert at_base (passing ∷ []) [] source test_paths [] [] ≡ proceed source (test_a ∷ []) []
unfolding plan_revert starts_with codes matches gather first_note dropped_names same exempted_tests
    second_note sorted_pairs
goes_on = refl

revert_gate_judges_example :
    ((revert_gate worktree at_base (passing ∷ []) [] source test_paths []).status ≡ fail
      → (name : Text)
      → Elem name
          (files (revert_gate worktree at_base (passing ∷ []) [] source test_paths []).failures)
        ↔ PassedReverted (test_a ∷ []) passing name)
    × ((revert_gate worktree at_base (passing ∷ []) [] source test_paths []).status ≡ pass
        → (name : Text) → ¬ PassedReverted (test_a ∷ []) passing name)
revert_gate_judges_example =
    revert_gate_judges worktree at_base (passing ∷ []) [] source test_paths [] source (test_a ∷ [])
      [] passing goes_on refl

abbrev policy : Policy
policy = record {
  gates = [];
  elevate_on = [];
  protected = [];
  integrity = record { test_paths = test_paths; suppressions = (b'#' ∷ []) ∷ []; gate_config = [] };
  witness = record { witness_name = none; witness_body = none; constants = [] };
}

abbrev digits : Digits
digits = record { is_digit = ascii.is_digit; value = λ c. c - 48 }

abbrev repr : Text → Text
repr text = text

integrity_gate-pass_iff_example :
    ((integrity_gate repr digits [] policy.integrity []).status ≡ pass) ↔ (
      HasPatterns repr policy.integrity
      × ReadsAs repr policy.integrity []
          (λ files. All (IsSound policy.integrity []) files)
          (parse_diff digits []))
integrity_gate-pass_iff_example = integrity_gate-pass_iff repr digits [] policy.integrity []

abbrev readers : Readers
readers = record {
  repr = repr;
  digits = digits;
  expressions = record {
    find_constants = λ entry text. [];
    search_name = λ pattern witness. none;
    find_bodies = λ body name text. [];
    names_whole_word = λ text name. false;
  };
}

abbrev tree : Tree Unit
tree = record {
  changed_files = λ world base. [];
  patch = λ world base. [];
  dirty_paths = λ world. [];
  revert = λ world base reverted. (none, world);
  restore = λ world base reverted. (none, world);
}

abbrev suite : GateSuite
suite = record {
  gates = gates;
  spec = record {
    risk = [];
    touches = [];
    forbidden = [];
    acceptance = with_mutant ∷ [];
    spec_type = [];
  };
  policy = policy;
  diff_base = [];
}

run_all-size_example :
    let run = (run_all host mutator tree readers suite at_base [] tt).0 in
    HasSize host mutator tree readers suite
      (λ size. size.status ≡ error → run.effective_risk ≡ codes "elevated")
      run.results
run_all-size_example = run_all-size host mutator tree readers suite at_base [] tt
