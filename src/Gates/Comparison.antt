-- ===== src/Gates/Comparison.antt =====
-- The suite comparison of saffron/gates/suite.py: a head's suite judged against its baseline's.
pub mod Outcomes
use saffron.Prelude.{
  Bool, true, false, not, List, [], ◌∷◌, ◌++◌, Text, codes, same, elem, filter, if◌then◌else◌,
}
use saffron.Policy.{GateDeclaration, Policy}
use saffron.Gates.Contract.{CharClasses, GateResult, Status, pass, fail, skip, error}
use saffron.Gates.Baseline.{NewFailure, DriftEntry, subtract_baseline, suite_drift}

unfoldable pub is_error : Status → Bool
is_error error = true
is_error _ = false

unfoldable pub aborted_gates : List GateResult → List Text
unfolding is_error
aborted_gates [] = []
aborted_gates (result ∷ results) =
    if is_error result.status then result.gate ∷ aborted_gates results else aborted_gates results

-- `advisory_gates` is a set, kept as a list of its members.
pub record SuiteRun : Type 0 where
  pub results : List GateResult
  pub effective_risk : Text
  pub advisory_gates : List Text

pub record SuiteComparison : Type 0 where
  pub run : SuiteRun
  pub aborted : List Text
  pub drift : List DriftEntry
  pub new_failures : List NewFailure
  pub advisory_failures : List NewFailure

unfoldable pub size_blocks : Text → Bool
size_blocks tier = same tier (codes "elevated")

-- The declared gates that do not block.
unfoldable pub not_blocking : List (Text × GateDeclaration) → List Text
not_blocking [] = []
not_blocking ((name, declaration) ∷ gates) =
    if declaration.blocking then not_blocking gates else name ∷ not_blocking gates

unfoldable pub advisory : Text → Policy → List Text
unfolding size_blocks not_blocking
advisory tier policy =
    if size_blocks tier then not_blocking policy.gates else codes "size" ∷ not_blocking policy.gates

-- The comparison of suites that neither aborted nor drifted.
unfoldable pub split_failures : SuiteRun → List NewFailure → SuiteComparison
split_failures head subtracted = record {
  run = head;
  aborted = [];
  drift = [];
  new_failures = filter (λ new. not (elem new.gate head.advisory_gates)) subtracted;
  advisory_failures = filter (λ new. elem new.gate head.advisory_gates) subtracted;
}

unfoldable pub compare_drifted : SuiteRun → List NewFailure → List DriftEntry → SuiteComparison
unfolding split_failures
compare_drifted head subtracted [] = split_failures head subtracted
compare_drifted head subtracted (entry ∷ drift) = record {
  run = head;
  aborted = [];
  drift = entry ∷ drift;
  new_failures = [];
  advisory_failures = [];
}

unfoldable pub compare_aborted :
    SuiteRun → List NewFailure → List DriftEntry → List Text → SuiteComparison
unfolding compare_drifted
compare_aborted head subtracted drift [] = compare_drifted head subtracted drift
compare_aborted head subtracted drift (gate ∷ aborted) = record {
  run = head;
  aborted = gate ∷ aborted;
  drift = [];
  new_failures = [];
  advisory_failures = [];
}

-- `_compare`. What a branch does not read is not computed.
unfoldable pub compare_suites : CharClasses → SuiteRun → SuiteRun → SuiteComparison
unfolding compare_aborted aborted_gates
compare_suites classes head baseline =
    compare_aborted head (subtract_baseline classes head.results baseline.results)
      (suite_drift head.results baseline.results) (aborted_gates head.results)
