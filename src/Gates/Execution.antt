-- ===== src/Gates/Execution.antt =====
-- `run_gate` of saffron/gates/runner.py: one gate's run and its classification, with
-- `parse_gate_json` of saffron/gates/contract.py.
pub mod Results
use saffron.Prelude.{
  ℕ, ◌-◌, Bool, true, false, not, ◌&&◌, List, [], ◌∷◌, ◌++◌, Option, none, some, Text, codes, same,
  all, filter, length, take, drop, is_empty, decimal, if◌then◌else◌,
}
use saffron.Intake.{Criterion, Mutant}
use saffron.Gates.Contract.{
  ℤ, pos, CharClasses, GateResult, Status, gate_result, pass, fail, skip, error, lstrip, rstrip,
}
use saffron.Gates.Baseline.{ran}
use saffron.Gates.Comparison.{is_error}
use saffron.Gates.Selection.{argv_safe}
use saffron.Gates.Witness.{
  Trial, not_restored, not_applied, refused, tested, declared_mutants, witness_gate,
}

-- `Completed` of saffron/cell/runtime.py, without the bound.
pub record Completed : Type 0 where
  pub returncode : ℤ
  pub stdout : Text
  pub stderr : Text
  pub timed_out : Bool

-- What `executor.run` came to: `GateNotExecutable` with its text, or a process that ended.
pub data Execution : Type 0 where
  not_executable : Text → Execution
  completed : Completed → Execution

-- What a decoder made of a gate's stdout: an exception with its text, or a result.
pub data Decoded : Type 0 where
  unusable : Text → Decoded
  decoded : GateResult → Decoded

-- The host that gates run on: the executor, the clock's reading for a run, `json.loads` with
-- pydantic's validation, `repr` of a text, the timeout as it is shown, and the Unicode tables.
pub record Host (World : Type 0) : Type 0 where
  pub execute : World → List Text → Execution × World
  pub elapsed_ms : World → ℕ
  pub decode : Text → Decoded
  pub repr : Text → Text
  pub timeout_s : Text
  pub classes : CharClasses

-- `_error`
abbrev pub gate_error : Text → Text → ℕ → GateResult
gate_error gate summary elapsed = record {
  schema_version = 1;
  gate = gate;
  status = error;
  tool = none;
  collected = none;
  uncollected = none;
  failures = [];
  summary = summary;
  duration_ms = some elapsed;
}

abbrev pub timed : ℕ → GateResult → GateResult
timed elapsed result = record {
  schema_version = result.schema_version;
  gate = result.gate;
  status = result.status;
  tool = result.tool;
  collected = result.collected;
  uncollected = result.uncollected;
  failures = result.failures;
  summary = result.summary;
  duration_ms = some elapsed;
}

-- `bool(result.tool)`
unfoldable pub is_named : Option Text → Bool
is_named none = false
is_named (some name) = not (is_empty name)

unfoldable pub is_zero : ℤ → Bool
is_zero (pos ℕ.zero) = true
is_zero _ = false

-- `(done.stderr or done.stdout or "").strip()[-_STDERR_TAIL:]`
unfoldable pub detail_of : CharClasses → Completed → Text
unfolding lstrip rstrip
detail_of classes done =
    let output = if is_empty done.stderr then done.stdout else done.stderr in
    let stripped = rstrip classes.is_space (lstrip classes.is_space output) in
    drop (length stripped - 800) stripped

-- A result that parses, by the three ways in which a gate reports one that it did not produce.
unfoldable pub judge_result : Text → ℕ → Bool → Text → GateResult → GateResult
unfolding is_named ran
judge_result name elapsed is_success code_text result =
    if ran result.status && not (is_named result.tool)
    then gate_error name
        (codes
          "gate reported a result without naming its tool — cannot tell 'ran and passed' from 'did not run'")
        elapsed
    else if not is_success && is_empty result.failures
    then gate_error name
        (codes "gate exited "
          ++ (code_text ++ codes " but parsed no failures — its output shape probably changed"))
        elapsed
    else timed elapsed result

-- `str(n)` for an `int`
abbrev pub show_int : ℤ → Text
show_int (pos n) = decimal n
show_int (ℤ.negsuc n) = codes "-" ++ decimal (ℕ.suc n)

module _ {World : Type 0} (host : Host World) where
  -- The check of the gate's name.
  unfoldable pub check_gate : Text → Decoded → Decoded
  check_gate expected_gate (unusable exc) = unusable exc
  check_gate expected_gate (decoded result) =
      if same result.gate expected_gate
      then decoded result
      else unusable (
          codes "gate emitted "
          ++ (host.repr result.gate ++ (codes " but is declared as " ++ host.repr expected_gate)))

  unfoldable pub parse_gate_json : Text → Text → Decoded
  unfolding check_gate
  parse_gate_json raw expected_gate = check_gate expected_gate (host.decode raw)

  unfoldable pub judge_parsed : Text → ℕ → Completed → Decoded → GateResult
  unfolding judge_result detail_of is_zero
  judge_parsed name elapsed done (unusable exc) =
      gate_error name
        (codes "gate emitted no usable contract ("
          ++ (exc ++ (codes "): " ++ detail_of host.classes done)))
        elapsed
  judge_parsed name elapsed done (decoded result) =
      judge_result name elapsed (is_zero done.returncode) (show_int done.returncode) result

  unfoldable pub judge_execution : Text → ℕ → Execution → GateResult
  unfolding judge_parsed parse_gate_json
  judge_execution name elapsed (not_executable exc) =
      gate_error name (codes "gate could not be executed: " ++ exc) elapsed
  judge_execution name elapsed (completed done) =
      if done.timed_out
      then gate_error name (codes "gate timed out after " ++ (host.timeout_s ++ codes "s")) elapsed
      else judge_parsed name elapsed done (parse_gate_json done.stdout name)

  unfoldable pub run_gate : Text → Text → List Text → World → GateResult × World
  unfolding judge_execution
  run_gate name executable subset world =
      let (execution, world') = host.execute world (executable ∷ subset) in
      (judge_execution name (host.elapsed_ms world') execution, world')
