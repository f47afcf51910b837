-- ===== src/Gates/Runner/Order.antt =====
-- The gates that `run_suite` reports, in their order.
use saffron.Prelude.{
  ◌≡◌, refl, ap, ap₂, sym, ◌∙◌, inl, inr, List, [], ◌∷◌, map, Option, none, some, arith, Text,
  codes, same, is_empty, Bool-cases, if_cases, if◌then◌else◌,
}
use saffron.Intake.{Criterion}
use saffron.Gates.Contract.{GateResult}
use saffron.Gates.Witness.{declared_mutants}
use saffron.Gates.Witness.Survivors.{witness_gate-IsUncancelled}
use saffron.Gates.Execution.Results.{run_gate-gate}
use saffron.Gates.Execution.{Host, run_gate}
use saffron.Gates.Runner.{
  Mutator, try_mutant, refusal, after_probe, probe_and_run, collected_of, run_witness, run_gates,
  tests_gate, tests_result_of, insert_witness, with_witness, run_suite,
}

abbrev pub names_of : List (Text × Text) → List Text
names_of gates = map (λ g. g.0) gates

abbrev pub gates_of : List GateResult → List Text
gates_of results = map (λ result. result.gate) results

-- A name put behind the first `tests`, if there is one.
unfoldable pub behind_tests : Text → List Text → List Text
behind_tests new [] = []
behind_tests new (name ∷ names) =
    let rest = behind_tests new names in
    if same name (codes "tests") then name ∷ new ∷ names else name ∷ rest

gates_of-insert_witness :
    (witness : GateResult) (results : List GateResult)
    → gates_of (insert_witness witness results) ≡ behind_tests witness.gate (gates_of results)
unfolding insert_witness behind_tests
gates_of-insert_witness witness [] = refl
gates_of-insert_witness witness (result ∷ results) =
    elim (Bool-cases (same result.gate (codes "tests"))) [
      | inl e ↦ rw e
      | inr e ↦ rw e (ap (λ rest. result.gate ∷ rest) (gates_of-insert_witness witness results))
    ]

behind_tests_absent :
    (new : Text) (gates : List (Text × Text))
    → tests_gate gates ≡ none
    → behind_tests new (names_of gates) ≡ names_of gates
unfolding tests_gate behind_tests
behind_tests_absent new [] h = refl
behind_tests_absent new ((name, executable) ∷ gates) h =
    ground (arith, behind_tests_absent new gates)

module _ {World : Type 0} (host : Host World) where
  gates_of-run_gates :
      (gates : List (Text × Text)) (world : World)
      → gates_of (run_gates host gates world).0 ≡ names_of gates
  unfolding run_gates
  gates_of-run_gates [] world = refl
  gates_of-run_gates ((name, executable) ∷ gates) world =
      ap₂ ◌∷◌ (run_gate-gate host name executable [] world)
        (gates_of-run_gates gates (run_gate host name executable [] world).1)

  run_witness-gate :
      (mutator : Mutator World) (tests : Text) (acceptance : List Criterion)
      (tests_result : Option GateResult) (world : World)
      → (run_witness host mutator tests acceptance tests_result world).0.gate ≡ codes "witness"
  unfolding run_witness probe_and_run refusal
  run_witness-gate mutator tests acceptance tests_result world =
      if_cases (λ (outcome : GateResult × World). outcome.0.gate ≡ codes "witness")
        (is_empty (declared_mutants acceptance)) _ _
        (λ _.
          (witness_gate-IsUncancelled (try_mutant host mutator tests) (codes "mutant")
            (collected_of tests_result) acceptance world).0)
        (λ _. probed (collected_of tests_result))
    where
      after :
          (collected : Option (List Text)) (refused : Option GateResult) (world' : World)
          → ((result : GateResult) → refused ≡ some result → result.gate ≡ codes "witness")
          → (after_probe host mutator tests acceptance collected refused world').0.gate
            ≡ codes "witness"
      after collected none world' h =
          unfold after_probe in
          (witness_gate-IsUncancelled (try_mutant host mutator tests) (codes "mutant") collected
            acceptance world').0
      after collected (some result) world' h = unfold after_probe in h result refl

      refusal-gate :
          (probe : Option (Text × GateResult)) (result : GateResult)
          → refusal probe ≡ some result
          → result.gate ≡ codes "witness"
      refusal-gate none result e = ground arith
      refusal-gate (some (candidate, probe)) result e = ground arith

      probed :
          (collected : Option (List Text))
          → (probe_and_run host mutator tests acceptance collected world).0.gate ≡ codes "witness"
      probed none = refl
      probed (some []) = refl
      probed (some (name ∷ names)) = after (some (name ∷ names)) _ _ (refusal-gate _)

  -- The suite reports one result for each declared gate, in declaration order, and with a mutator
  -- the result of `witness` right behind that of `tests`, if `tests` is declared.
  pub run_suite-gates :
      (mutator : Mutator World) (gates : List (Text × Text)) (acceptance : List Criterion)
      (world : World)
      → (gates_of (run_suite host none gates acceptance world).0 ≡ names_of gates)
        × (gates_of (run_suite host (some mutator) gates acceptance world).0
            ≡ behind_tests (codes "witness") (names_of gates))
  unfolding run_suite with_witness
  run_suite-gates mutator gates acceptance world =
      (gates_of-run_gates gates world, with_tests (tests_gate gates) refl)
    where
      with_tests :
          (tests : Option Text)
          → tests_gate gates ≡ tests
          → gates_of
              (with_witness host
                (some mutator)
                tests
                acceptance
                (run_gates host gates world).0
                (run_gates host gates world).1).0
            ≡ behind_tests (codes "witness") (names_of gates)
      with_tests none e =
          gates_of-run_gates gates world ∙ sym (behind_tests_absent (codes "witness") gates e)
      with_tests (some tests) e =
          let (results, world') = run_gates host gates world in
          let witness =
            (run_witness host mutator tests acceptance (tests_result_of results) world').0 in
          gates_of-insert_witness witness results
          ∙ ap₂ behind_tests
              (run_witness-gate mutator tests acceptance (tests_result_of results) world')
              (gates_of-run_gates gates world)
