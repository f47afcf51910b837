-- ===== src/Gates/Revert.antt =====
-- saffron/gates/core/revert.py: new tests, run with their own source reverted, must not pass.
pub mod Verdict
use saffron.Prelude.{
  Bool, true, false, not, ◌&&◌, ◌||◌, List, [], ◌∷◌, ◌++◌, map, Option, none, some, Text, codes,
  same, elem, any, filter, starts_with, take, length, is_empty, decimal, join, sorted_set, text_lt,
  if◌then◌else◌,
}
use saffron.Intake.{Criterion, Mutant}
use saffron.Gates.Contract.{Failure, GateResult, Status, gate_result, pass, fail, skip, error}
use saffron.Gates.Baseline.{ran}
use saffron.Gates.Census.{collected_names}
use saffron.Gates.Criteria.{failure_codes}
use saffron.Gates.Scope.{matches_any}
use saffron.Gates.Selection.{Plan, stop, proceed, plan_revert}

-- The tests that the reverted run collected and did not fail.
unfoldable pub passed_names : List Text → List Text → List Text → List Text
unfolding sorted_set
passed_names subset collected failed =
    sorted_set (filter (λ name. elem name collected && not (elem name failed)) subset)

abbrev pub theater : Text → Failure
theater name = record {
  file = name;
  line = none;
  code = codes "passed-without-source";
  message = codes "ran and passed with its own source reverted";
}

abbrev pub with_tool : Option Text → Status → List Failure → Text → GateResult
with_tool tool status failures summary = record {
  schema_version = 1;
  gate = codes "revert";
  status = status;
  tool = tool;
  collected = none;
  uncollected = none;
  failures = failures;
  summary = summary;
  duration_ms = none;
}

unfoldable pub theater_verdict : Option Text → List Text → Text → List Text → GateResult
theater_verdict tool subset note [] = with_tool tool pass [] (
    decimal (length subset)
    ++ (codes " new test(s) failed without their source, as required" ++ note))
theater_verdict tool subset note (name ∷ passed) =
    with_tool tool fail (map theater (name ∷ passed)) (
      decimal (length (name ∷ passed))
      ++ (codes " of "
          ++ (decimal (length subset)
              ++ (codes " new test(s) passed without their source" ++ note))))

abbrev pub not_keyed : GateResult
not_keyed = gate_result (codes "revert") skip [] (
    codes
      "the reverted run keyed its failures on something other than a node id, so a failing test cannot be told from a passing one")

-- The check that the failures are keyed on node ids, and the verdict.
unfoldable pub judge_keyed :
    Option Text → List Text → List Text → List Text → List Text → Text → GateResult
unfolding theater_verdict passed_names
judge_keyed tool subset collected listed failed note =
    if not (is_empty failed) && not (any (λ code. elem code (collected ++ listed)) failed)
    then not_keyed
    else theater_verdict tool subset note (passed_names subset collected failed)

-- `unaccounted`
unfoldable pub unaccounted_names : List Text → List Text → List Text → List Text
unfolding sorted_set
unaccounted_names subset collected listed = sorted_set (
    filter (λ name. not (elem name collected) && not (elem name listed)) subset
    ++ filter (λ name. elem name collected && elem name listed) subset)

unfoldable pub judge_accounted :
    Option Text → List Text → List Text → List Text → List Text → Text → List Text → GateResult
unfolding judge_keyed
judge_accounted tool subset collected listed failed note [] =
    judge_keyed tool subset collected listed failed (
      note
      ++ (if is_empty listed
          then []
          else codes " — "
            ++ (decimal (length (sorted_set listed))
                ++ (codes
                      " handed name(s) the reverted run could not collect, read as failed without their source: "
                    ++ join (codes ", ") (take 3 (sorted_set listed))))))
judge_accounted tool subset collected listed failed note (name ∷ unaccounted) =
    gate_result (codes "revert") error [] (
      codes "the reverted run left "
      ++ (decimal (length (name ∷ unaccounted))
          ++ (codes " handed name(s) unaccounted for: "
              ++ join (codes ", ") (take 3 (name ∷ unaccounted)))))

unfoldable pub judge_collected :
    List Text → Text → GateResult → Option (List Text) → Option (List Text) → GateResult
unfolding judge_accounted unaccounted_names judge_keyed
judge_collected subset note result none uncollected =
    gate_result (codes "revert") skip []
      (codes "the reverted run reported no collected tests — nothing to read")
judge_collected subset note result (some collected) none =
    judge_keyed result.tool subset collected [] (failure_codes result.failures) note
judge_collected subset note result (some collected) (some uncollected) =
    let listed = filter (λ name. elem name subset) uncollected in
    judge_accounted result.tool subset collected listed (failure_codes result.failures) note
      (unaccounted_names subset collected listed)

abbrev pub status_text : Status → Text
status_text pass = codes "pass"
status_text fail = codes "fail"
status_text skip = codes "skip"
status_text error = codes "error"

-- The result of the reverted run, judged.
unfoldable pub judge_reverted : List Text → Text → GateResult → GateResult
unfolding judge_collected ran
judge_reverted subset note result =
    if not (ran result.status)
    then gate_result (codes "revert") skip [] (
        codes "the reverted run returned "
        ++ (status_text result.status
            ++ codes
                " and no readable verdict — no new test was seen to pass without its source, which is not the same as one having failed"))
    else judge_collected subset note result result.collected result.uncollected

-- What `with reverted(source): run_tests(subset)` came to, with the text of an exception.
pub data RevertedRun : Type 0 where
  not_restored : Text → RevertedRun
  not_run : Text → RevertedRun
  ran_reverted : GateResult → RevertedRun

unfoldable pub judge_run : List Text → Text → RevertedRun → GateResult
unfolding judge_reverted
judge_run subset note (not_restored exc) =
    gate_result (codes "revert") error [] (codes "could not revert or restore the source — " ++ exc)
judge_run subset note (not_run exc) =
    gate_result (codes "revert") error [] (codes "the reverted run could not be executed — " ++ exc)
judge_run subset note (ran_reverted result) = judge_reverted subset note result

-- The worktree: the dirty paths, and a run of tests with source reverted.
pub record Worktree : Type 0 where
  pub dirty : List Text
  pub run_reverted : List Text → List Text → RevertedRun

unfoldable pub execute : Worktree → Plan → GateResult
unfolding judge_run
execute tree (stop result) = result
execute tree (proceed source subset note) = judge_run subset note (tree.run_reverted source subset)

unfoldable pub revert_gate :
    Worktree
    → List GateResult
    → List GateResult
    → List Criterion
    → List Text
    → List Text
    → List Text
    → GateResult
unfolding execute plan_revert
revert_gate tree prior results acceptance changed_files test_paths exempt =
    execute tree (plan_revert prior results acceptance changed_files test_paths tree.dirty exempt)
