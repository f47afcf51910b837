-- ===== src/Samples/Suites.antt =====
-- The baseline, drift, comparison and census theorems, on small suites.
use saffron.Prelude.{
  ◌-◌, ◌+◌, ◌≡◌, refl, ◌↔◌, List, [], ◌∷◌, none, some, arith, Text, codes, same, All, Elem,
  if◌then◌else◌,
}
use saffron.Gates.Contract.{
  Failure, GateResult, gate_result, pass, fail, identity, Identity, same_identity,
  normalize_message,
}
use saffron.Gates.Baseline.{
  NewFailure, all_failures, counter, subtract_baseline, suite_drift, result_of,
}
use saffron.Gates.Baseline.Counts.{is_survivor, counter-subtract_baseline}
use saffron.Gates.Baseline.Drift.{IsSteadyAfter, suite_drift_iff}
use saffron.Gates.Comparison.{SuiteRun, compare_suites}
use saffron.Gates.Comparison.Outcomes.{
  AtMostOne, IsComparable, compare_suites-AtMostOne, compare_suites-splits,
}
use saffron.Gates.Census.{census_gate}
use saffron.Gates.Census.Verdict.{Enumerates, IsCollected, census_gate-pass_iff}
use saffron.Samples.Contract.{ascii}

abbrev long_line : Failure
long_line = record { file = b'a' ∷ []; line = none; code = b'E' ∷ []; message = b'l' ∷ [] }

abbrev unused : Failure
unused = record { file = b'a' ∷ []; line = none; code = b'F' ∷ []; message = b'u' ∷ [] }

abbrev lint : Text
lint = b'l' ∷ []

abbrev lint_at_base : GateResult
lint_at_base = gate_result lint fail (long_line ∷ []) []

-- Two of the baseline's failure, and another.
abbrev lint_at_head : GateResult
lint_at_head = gate_result lint fail (long_line ∷ unused ∷ long_line ∷ []) []

abbrev base : List GateResult
base = lint_at_base ∷ []

abbrev head : List GateResult
head = lint_at_head ∷ []

abbrev key : Identity
key = identity ascii lint long_line

kept_of_head :
    subtract_baseline ascii head base
    ≡ record { gate = lint; failure = unused } ∷ record { gate = lint; failure = long_line } ∷ []
unfolding subtract_baseline codes same same_identity identity normalize_message
kept_of_head = refl

counter-subtract_baseline_example :
    counter ascii (subtract_baseline ascii head base) key
    ≡ counter ascii (all_failures head) key
      - (if is_survivor key then 0 else counter ascii (all_failures base) key)
counter-subtract_baseline_example = counter-subtract_baseline ascii head base key

abbrev attempt : List NewFailure
attempt =
    record { gate = lint; failure = unused } ∷ record { gate = lint; failure = long_line } ∷ []

abbrev next_attempt : List NewFailure
next_attempt =
    record { gate = lint; failure = long_line } ∷ record { gate = lint; failure = unused } ∷ []

suite_drift_iff_example :
    (suite_drift head base ≡ [])
    ↔ All (λ result. IsSteadyAfter (result_of result.gate base) result) head
suite_drift_iff_example = suite_drift_iff head base

abbrev run_of : List GateResult → SuiteRun
run_of results = record { results = results; effective_risk = []; advisory_gates = [] }

compare_suites-AtMostOne_example : AtMostOne (compare_suites ascii (run_of head) (run_of base))
compare_suites-AtMostOne_example = compare_suites-AtMostOne ascii (run_of head) (run_of base)

sample-IsComparable : IsComparable (run_of head) (run_of base)
unfolding result_of same
sample-IsComparable = ((ground arith, tt), (((λ _ _. refl), ground arith), tt))

IsComparable-self : IsComparable (run_of head) (run_of head)
unfolding result_of same
IsComparable-self = ((ground arith, tt), (((λ _ _. refl), ground arith), tt))

compare_suites-splits_example :
    ((compare_suites ascii (run_of head) (run_of base)).aborted ≡ [])
    × ((compare_suites ascii (run_of head) (run_of base)).drift ≡ [])
    × All
        (λ new. ¬ Elem new.gate [])
        (compare_suites ascii (run_of head) (run_of base)).new_failures
    × All
        (λ new. Elem new.gate [])
        (compare_suites ascii (run_of head) (run_of base)).advisory_failures
    × ((key : Identity)
        → counter ascii (compare_suites ascii (run_of head) (run_of base)).new_failures key
            + counter ascii (compare_suites ascii (run_of head) (run_of base)).advisory_failures key
          ≡ counter ascii (all_failures head) key
            - (if is_survivor key then 0 else counter ascii (all_failures base) key))
compare_suites-splits_example =
    compare_suites-splits ascii (run_of head) (run_of base) sample-IsComparable

abbrev tests_of : List Text → GateResult
tests_of names = record {
  schema_version = 1;
  gate = b't' ∷ [];
  status = pass;
  tool = none;
  collected = some names;
  uncollected = none;
  failures = [];
  summary = [];
  duration_ms = none;
}

abbrev pub before : List GateResult
before = tests_of ((b'a' ∷ []) ∷ (b'b' ∷ []) ∷ []) ∷ []

abbrev pub after : List GateResult
after = tests_of ((b'a' ∷ []) ∷ (b'c' ∷ []) ∷ []) ∷ []

census_gate-pass_iff_example : ((census_gate before after).status ≡ pass) ↔ (
    Enumerates before
    × Enumerates after
    × ((name : Text) → IsCollected name before → IsCollected name after))
census_gate-pass_iff_example = census_gate-pass_iff before after

one_removed : (census_gate before after).status ≡ fail
unfolding census_gate same
one_removed = refl

abbrev dirty : List Text
dirty = (b'a' ∷ []) ∷ []
