-- ===== src/Gates/Runner.antt =====
-- saffron/gates/runner.py: the probe before the `witness` gate, and the suite of declared gates.
pub mod Probe
pub mod Order
use saffron.Prelude.{
  ℕ, ◌-◌, Bool, true, false, not, ◌&&◌, List, [], ◌∷◌, ◌++◌, Option, none, some, Text, codes, same,
  all, filter, length, take, drop, is_empty, decimal, if◌then◌else◌,
}
use saffron.Intake.{Criterion, Mutant}
use saffron.Gates.Contract.{
  ℤ, pos, CharClasses, GateResult, Status, gate_result, pass, fail, skip, error, lstrip, rstrip,
}
use saffron.Gates.Baseline.{ran}
use saffron.Gates.Comparison.{is_error}
use saffron.Gates.Selection.{argv_safe}
use saffron.Gates.Witness.{
  Trial, not_restored, not_applied, refused, tested, declared_mutants, witness_gate,
}
use saffron.Gates.Execution.{
  Completed, Decoded, Execution, Host, check_gate, completed, decoded, detail_of, gate_error,
  is_named, is_zero, judge_execution, judge_parsed, judge_result, not_executable, parse_gate_json,
  run_gate, show_int, timed, unusable,
}

-- The context manager `mutate(mutant)`: its entry raises, yields a reason, or leaves the mutant in
-- place; its exit raises or not.
pub data Applied : Type 0 where
  raised : Text → Applied
  because : Text → Applied
  in_place : Applied

pub record Mutator (World : Type 0) : Type 0 where
  pub apply : World → Mutant → Applied × World
  pub undo : World → Mutant → Option Text × World

abbrev pub witness_skip : Text → GateResult
witness_skip why = gate_result (codes "witness") skip [] why

-- `probed is None or set(probed) - {candidate}`, denied.
unfoldable pub is_honoured : Text → Option (List Text) → Bool
is_honoured candidate none = false
is_honoured candidate (some names) = all (λ name. same name candidate) names

-- Why no mutant is applied behind the probe, if none is.
unfoldable pub refusal : Option (Text × GateResult) → Option GateResult
unfolding is_honoured is_error
refusal none = some (
    witness_skip (
      codes
        "the repo's `tests` gate does not accept a subset argument, so no mutant was applied — no usable id to probe with"))
refusal (some (candidate, probe)) =
    if is_error probe.status
    then some (
        witness_skip (
          codes
            "the repo's `tests` gate does not accept a subset argument, so no mutant was applied — "
          ++ probe.summary))
    else if is_honoured candidate probe.collected
    then none
    else some (
        witness_skip (
          codes
            "the repo's `tests` gate accepted a subset argument and did not honour it, so a mutant's failure could not be attributed to its own witness"))

-- `tests_result.collected if tests_result is not None else None`
abbrev pub collected_of : Option GateResult → Option (List Text)
collected_of none = none
collected_of (some result) = result.collected

-- `gates["tests"]`, if it is declared.
unfoldable pub tests_gate : List (Text × Text) → Option Text
tests_gate [] = none
tests_gate ((name, executable) ∷ gates) =
    let rest = tests_gate gates in if same name (codes "tests") then some executable else rest

-- `next((r for r in results if r.gate == "tests"), None)`
unfoldable pub tests_result_of : List GateResult → Option GateResult
tests_result_of [] = none
tests_result_of (result ∷ results) =
    let rest = tests_result_of results in
    if same result.gate (codes "tests") then some result else rest

-- The result put behind that of `tests`.
unfoldable pub insert_witness : GateResult → List GateResult → List GateResult
insert_witness witness [] = []
insert_witness witness (result ∷ results) =
    let rest = insert_witness witness results in
    if same result.gate (codes "tests") then result ∷ witness ∷ results else result ∷ rest

module _ {World : Type 0} (host : Host World) where
  -- `with mutate(mutant) as reason: run_tests([witness])`, as the witness gate sees it: a run of
  -- `run_gate` raises nothing.
  unfoldable pub try_mutant : Mutator World → Text → World → Mutant → Text → Trial × World
  unfolding run_gate
  try_mutant mutator tests world mutant witness =
      let (applied, world') = mutator.apply world mutant in
      elim applied [
        | raised exc ↦ (not_applied exc, world')
        | because reason ↦
            let (failure, world'') = mutator.undo world' mutant in
            elim failure [
              | none ↦ (refused reason, world'')
              | some exc ↦ (not_applied exc, world'')
            ]
        | in_place ↦
            let (result, world'') = run_gate host (codes "tests") tests (witness ∷ []) world' in
            let (failure, world''') = mutator.undo world'' mutant in
            elim failure [
              | none ↦ (tested result, world''')
              | some exc ↦ (not_restored exc none, world''')
            ]
      ]

  -- The loop over the candidates: the first probe that is no error, or the last that was made,
  -- with its candidate.
  unfoldable pub probe_tests : Text → List Text → World → Option (Text × GateResult) × World
  unfolding run_gate
  probe_tests tests [] world = (none, world)
  probe_tests tests (candidate ∷ []) world =
      let (probe, world') = run_gate host (codes "tests") tests (candidate ∷ []) world in
      (some (candidate, probe), world')
  probe_tests tests (candidate ∷ next ∷ candidates) world =
      let (probe, world') = run_gate host (codes "tests") tests (candidate ∷ []) world in
      let rest = probe_tests tests (next ∷ candidates) world' in
      if is_error probe.status then rest else (some (candidate, probe), world')

  -- The gate itself, behind a probe that is not refused.
  unfoldable pub after_probe :
      Mutator World
      → Text
      → List Criterion
      → Option (List Text)
      → Option GateResult
      → World
      → GateResult × World
  unfolding witness_gate try_mutant
  after_probe mutator tests acceptance collected none world =
      witness_gate (try_mutant mutator tests) (codes "mutant") collected acceptance world
  after_probe mutator tests acceptance collected (some result) world = (result, world)

  unfoldable pub probe_and_run :
      Mutator World → Text → List Criterion → Option (List Text) → World → GateResult × World
  unfolding probe_tests refusal after_probe argv_safe
  probe_and_run mutator tests acceptance none world = (
    witness_skip (
        codes
          "no readable test enumeration to probe subset support with — nothing to verify a mutant against"),
    world,
  )
  probe_and_run mutator tests acceptance (some []) world = (
    witness_skip (
        codes
          "no readable test enumeration to probe subset support with — nothing to verify a mutant against"),
    world,
  )
  probe_and_run mutator tests acceptance (some (name ∷ names)) world =
      let (probe, world') = probe_tests tests (take 3 (filter argv_safe (name ∷ names))) world in
      after_probe mutator tests acceptance (some (name ∷ names)) (refusal probe) world'

  -- `run_witness` of a repo that declares the `tests` gate.
  unfoldable pub run_witness :
      Mutator World → Text → List Criterion → Option GateResult → World → GateResult × World
  unfolding probe_and_run
  run_witness mutator tests acceptance tests_result world =
      if is_empty (declared_mutants acceptance)
      then witness_gate (try_mutant mutator tests) (codes "mutant") (collected_of tests_result)
          acceptance world
      else probe_and_run mutator tests acceptance (collected_of tests_result) world

  -- `[run_gate(name, executable, …) for name, executable in gates.items()]`
  unfoldable pub run_gates : List (Text × Text) → World → List GateResult × World
  unfolding run_gate
  run_gates [] world = ([], world)
  run_gates ((name, executable) ∷ gates) world =
      let (result, world') = run_gate host name executable [] world in
      let (results, world'') = run_gates gates world' in (result ∷ results, world'')

  unfoldable pub with_witness :
      Option (Mutator World)
      → Option Text
      → List Criterion
      → List GateResult
      → World
      → List GateResult × World
  unfolding run_witness tests_result_of insert_witness
  with_witness none tests acceptance results world = (results, world)
  with_witness (some mutator) none acceptance results world = (results, world)
  with_witness (some mutator) (some tests) acceptance results world =
      let (witness, world') =
        run_witness mutator tests acceptance (tests_result_of results) world in
      (insert_witness witness results, world')

  unfoldable pub run_suite :
      Option (Mutator World) → List (Text × Text) → List Criterion → World → List GateResult × World
  unfolding run_gates with_witness tests_gate
  run_suite mutate gates acceptance world =
      let (results, world') = run_gates gates world in
      with_witness mutate (tests_gate gates) acceptance results world'
