-- ===== src/Gates/Runner/Probe.antt =====
-- What is known of the `tests` gate before any mutant is applied.
use saffron.Prelude.{
  ◌≡◌, refl, starts_with, not, ◌≢◌, ◌↔◌, inl, inr, true, false, List, [], ◌∷◌, Option, none, some,
  arith, Text, codes, ℕ, zero, suc, same, same_iff, all_iff, All, Elem, Elem-filter, filter, take,
  is_empty, if_cases,
}
use saffron.Intake.{Criterion}
use saffron.Gates.Contract.{GateResult, Status, skip, error}
use saffron.Gates.Comparison.{is_error}
use saffron.Gates.Selection.{argv_safe}
use saffron.Gates.Witness.{declared_mutants, witness_gate}
use saffron.Gates.Execution.{Host, run_gate}
use saffron.Gates.Runner.{
  Mutator, is_honoured, refusal, after_probe, try_mutant, probe_tests, probe_and_run, collected_of,
  run_witness,
}

-- The run enumerated, and nothing but the candidate.
abbrev pub IsConfined : Text → Option (List Text) → Type 0
IsConfined candidate none = ⊥
IsConfined candidate (some names) = All (λ name. name ≡ candidate) names

Elem-take : (k : ℕ) (name : Text) (names : List Text) → Elem name (take k names) → Elem name names
Elem-take zero name names m = elim m [ ]
Elem-take (suc k) name [] m = m
Elem-take (suc k) name (x ∷ names) (inl e) = inl e
Elem-take (suc k) name (x ∷ names) (inr m) = inr (Elem-take k name names m)

is_error_iff : (s : Status) → (is_error s ≡ true) ↔ (s ≡ error)
unfolding is_error
is_error_iff s = ground arith

module _ {World : Type 0} (host : Host World) where
  is_honoured_iff :
      (candidate : Text) (collected : Option (List Text))
      → (is_honoured candidate collected ≡ true) ↔ IsConfined candidate collected
  unfolding is_honoured
  is_honoured_iff candidate none = ground arith
  is_honoured_iff candidate (some names) =
      all_iff (λ name. same name candidate) (λ name. name ≡ candidate)
        (λ name. same_iff name candidate) names

  abbrev run_alone : Text → Text → World → GateResult × World
  run_alone tests candidate before = run_gate host (codes "tests") tests (candidate ∷ []) before

  -- The runs of the `tests` gate on one candidate after the other, each from the world that the last
  -- one left: all were errors but the last, which is the probe.
  pub data Probed (tests : Text) : List Text → World → Text → GateResult → World → Type 0 where
    answered :
        {candidate : Text} {candidates : List Text} {before : World}
        → (run_alone tests candidate before).0.status ≢ error
        → Probed tests
            (candidate ∷ candidates)
            before
            candidate
            (run_alone tests candidate before).0
            (run_alone tests candidate before).1
    failed :
        {candidate : Text} {candidates : List Text} {before : World} {last : Text}
        {probe : GateResult} {after : World}
        → (run_alone tests candidate before).0.status ≡ error
        → Probed tests candidates (run_alone tests candidate before).1 last probe after
        → Probed tests (candidate ∷ candidates) before last probe after

  abbrev Answers : Text → List Text → World → Option (Text × GateResult) × World → Type 0
  Answers tests candidates before (none, after) = Unit
  Answers tests candidates before (some (candidate, probe), after) =
      Elem candidate candidates
      × (probe.status ≢ error → Probed tests candidates before candidate probe after)

  Answers-cons :
      (tests candidate : Text) (candidates : List Text) (before : World)
      (outcome : Option (Text × GateResult) × World)
      → (run_alone tests candidate before).0.status ≡ error
      → Answers tests candidates (run_alone tests candidate before).1 outcome
      → Answers tests (candidate ∷ candidates) before outcome
  Answers-cons tests candidate candidates before (none, after) e a = tt
  Answers-cons tests candidate candidates before (some (c, probe), after) e a =
      (inr a.0, λ n. failed e (a.1 n))

  probe_tests-Answers :
      (tests : Text) (candidates : List Text) (world : World)
      → Answers tests candidates world (probe_tests host tests candidates world)
  unfolding probe_tests
  probe_tests-Answers tests [] world = tt
  probe_tests-Answers tests (candidate ∷ []) world = (inl refl, λ n. answered n)
  probe_tests-Answers tests (candidate ∷ next ∷ candidates) world =
      let (probe, world') = run_alone tests candidate world in
      if_cases (Answers tests (candidate ∷ next ∷ candidates) world) (is_error probe.status)
        (probe_tests host tests (next ∷ candidates) world') (some (candidate, probe), world')
        (λ e.
          Answers-cons tests candidate (next ∷ candidates) world _ ((is_error_iff probe.status).0 e)
            (probe_tests-Answers tests (next ∷ candidates) world'))
        (λ _. (inl refl, λ n. answered n))

  abbrev pub first_three : List Text → List Text
  first_three names = take 3 (filter (λ name. not (starts_with (codes "-") name)) names)

  -- The whole outcome is that of the witness gate on what a probe left. The probe is a run on one of
  -- the names, of the first three that are no option, which was no error and enumerated nothing else.
  abbrev pub IsProbed :
      Mutator World → Text → List Criterion → List Text → World → GateResult × World → Type 0
  IsProbed mutator tests acceptance names world outcome =
      (candidate : Text) × (probe : GateResult) × (after : World) × Elem candidate names
      × (starts_with (codes "-") candidate ≡ false)
      × Probed tests (first_three names) world candidate probe after
      × IsConfined candidate probe.collected
      × (outcome
          ≡ witness_gate (try_mutant host mutator tests) (codes "mutant") (some names) acceptance
              after)

  refusal-skips :
      (probe : Option (Text × GateResult)) (result : GateResult)
      → refusal probe ≡ some result
      → result.status ≡ skip
  unfolding refusal
  refusal-skips none result e = ground arith
  refusal-skips (some (candidate, probe)) result e = ground arith

  refusal-none :
      (candidate : Text) (probe : GateResult)
      → refusal (some (candidate, probe)) ≡ none
      → (probe.status ≢ error) × IsConfined candidate probe.collected
  unfolding refusal
  refusal-none candidate probe e = (
    ground (arith, is_error_iff probe.status),
    ground (arith, is_honoured_iff candidate probe.collected),
  )

  module _ (mutator : Mutator World) (tests : Text) (acceptance : List Criterion) where
    after_probe-IsProbed :
        (names : List Text) (world : World) (outcome : Option (Text × GateResult) × World)
        (refused : Option GateResult)
        → Answers tests (first_three names) world outcome
        → refusal outcome.0 ≡ refused
        → (after_probe host mutator tests acceptance (some names) refused outcome.1).0.status ≢ skip
        → IsProbed mutator tests acceptance names world
            (after_probe host mutator tests acceptance (some names) refused outcome.1)
    unfolding after_probe argv_safe
    after_probe-IsProbed names world (probe, after) (some result) a e h =
        absurd (h (refusal-skips probe result e))
    after_probe-IsProbed names world (none, after) none a e h = absurd (unfold refusal in cc e)
    after_probe-IsProbed names world (some (candidate, probe), after) none a e h =
        let (answers, confined) = refusal-none candidate probe e in
        let (member, safe) =
          (Elem-filter argv_safe candidate names).0
            (Elem-take 3 candidate (filter argv_safe names) a.0) in
        (candidate, probe, after, member, ground arith, a.1 answers, confined, refl)

    -- The suite's plain run enumerated the names.
    abbrev pub IsProbedAmong : Option (List Text) → World → GateResult × World → Type 0
    IsProbedAmong none world outcome = ⊥
    IsProbedAmong (some names) world outcome = IsProbed mutator tests acceptance names world outcome

    probe_and_run-IsProbed :
        (collected : Option (List Text)) (world : World)
        → (probe_and_run host mutator tests acceptance collected world).0.status ≢ skip
        → IsProbedAmong collected world
            (probe_and_run host mutator tests acceptance collected world)
    unfolding probe_and_run argv_safe
    probe_and_run-IsProbed none world h = h refl
    probe_and_run-IsProbed (some []) world h = absurd (h refl)
    probe_and_run-IsProbed (some (name ∷ names)) world h =
        let candidates = first_three (name ∷ names) in
        after_probe-IsProbed (name ∷ names) world (probe_tests host tests candidates world) _
          (probe_tests-Answers tests candidates world) refl h

    -- Where the spec declares mutants and the witness gate comes to anything but a skip, the suite's
    -- plain run enumerated names, and before any mutant the `tests` gate was run on one of them
    -- after the other, of the first three that are no command-line option, each run from what the last
    -- one left and the first from what `run_witness` was given, up to the first that was no error.
    -- That run enumerated its own name only, and the whole outcome is that of the witness gate from
    -- what it left.
    pub run_witness-IsProbed :
        (tests_result : Option GateResult) (world : World)
        → declared_mutants acceptance ≢ []
        → (run_witness host mutator tests acceptance tests_result world).0.status ≢ skip
        → IsProbedAmong
            (collected_of tests_result)
            world
            (run_witness host mutator tests acceptance tests_result world)
    unfolding run_witness
    run_witness-IsProbed tests_result world d h =
        rw (some_declared (declared_mutants acceptance) d) (
          probe_and_run-IsProbed (collected_of tests_result) world
            (rw (some_declared (declared_mutants acceptance) d) at h))
      where
        some_declared : {A : Type 0} (xs : List A) → xs ≢ [] → is_empty xs ≡ false
        some_declared [] d = absurd (d refl)
        some_declared (x ∷ xs) d = refl
