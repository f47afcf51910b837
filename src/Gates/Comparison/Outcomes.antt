-- ===== src/Gates/Comparison/Outcomes.antt =====
-- The outcomes of a suite comparison.
use saffron.Prelude.{
  ◌+◌, ◌-◌, ◌≡◌, refl, ap, ◌∙◌, ◌≢◌, ◌↔◌, Bool, true, false, not, List, [], ◌∷◌, arith, Text, elem,
  Elem, elem_iff, filter, All, if◌then◌else◌, if_cases,
}
use saffron.Gates.Contract.{CharClasses, GateResult, error, Identity}
use saffron.Gates.Baseline.{
  NewFailure, DriftEntry, all_failures, key_of, counter, result_of, subtract_baseline, suite_drift,
}
use saffron.Gates.Baseline.Counts.{is_survivor, same_identity_iff, counter-subtract_baseline}
use saffron.Gates.Baseline.Drift.{IsSteadyAfter, suite_drift_iff}
use saffron.Gates.Comparison.{
  aborted_gates, SuiteRun, SuiteComparison, split_failures, compare_aborted, compare_suites,
}

aborted_gates_iff :
    (results : List GateResult)
    → (aborted_gates results ≡ []) ↔ All (λ result. result.status ≢ error) results
unfolding aborted_gates
aborted_gates_iff [] = ground arith
aborted_gates_iff (result ∷ results) = ground (arith, aborted_gates_iff results)

-- At most one of the three outcomes is there.
abbrev pub AtMostOne : SuiteComparison → Type 0
AtMostOne comparison =
    ((comparison.aborted ≢ [])
      → (comparison.drift ≡ [])
        × (comparison.new_failures ≡ [])
        × (comparison.advisory_failures ≡ []))
    × ((comparison.drift ≢ [])
        → (comparison.aborted ≡ [])
          × (comparison.new_failures ≡ [])
          × (comparison.advisory_failures ≡ []))
    × ((comparison.new_failures ≢ []) → (comparison.aborted ≡ []) × (comparison.drift ≡ []))

compare_aborted-AtMostOne :
    (head : SuiteRun) (subtracted : List NewFailure) (drift : List DriftEntry) (aborted : List Text)
    → AtMostOne (compare_aborted head subtracted drift aborted)
unfolding compare_aborted
compare_aborted-AtMostOne head subtracted [] [] = ground arith
compare_aborted-AtMostOne head subtracted (entry ∷ drift) [] = ground arith
compare_aborted-AtMostOne head subtracted drift (gate ∷ aborted) = ground arith

-- At most one of the three outcomes of a comparison (aborted gates, drift, new failures) is there,
-- and an aborted or drifted head reports no advisory failure either.
pub compare_suites-AtMostOne :
    (classes : CharClasses) (head baseline : SuiteRun)
    → AtMostOne (compare_suites classes head baseline)
unfolding compare_suites
compare_suites-AtMostOne classes head baseline =
    compare_aborted-AtMostOne head (subtract_baseline classes head.results baseline.results)
      (suite_drift head.results baseline.results) (aborted_gates head.results)

-- The suites can be compared: no gate of head is an error, and every gate is steady.
abbrev pub IsComparable : SuiteRun → SuiteRun → Type 0
IsComparable head baseline =
    All (λ result. result.status ≢ error) head.results
    × All (λ result. IsSteadyAfter (result_of result.gate baseline.results) result) head.results

compare_suites_comparable :
    (classes : CharClasses) (head baseline : SuiteRun)
    → IsComparable head baseline
    → compare_suites classes head baseline
      ≡ split_failures head (subtract_baseline classes head.results baseline.results)
unfolding compare_suites
compare_suites_comparable classes head baseline h =
    rw (
      (aborted_gates_iff head.results).1 h.0,
      (suite_drift_iff head.results baseline.results).1 h.1,
    )

All-filter :
    (test : NewFailure → Bool) (P : NewFailure → Type 0)
    → ((new : NewFailure) → test new ≡ true → P new)
    → (news : List NewFailure) → All P (filter test news)
All-filter test P h [] = tt
All-filter test P h (new ∷ news) =
    if_cases (All P) (test new) (new ∷ filter test news) (filter test news)
      (λ e. (h new e, All-filter test P h news)) (λ _. All-filter test P h news)

module _ (classes : CharClasses) where
  counter-filter :
      (test : NewFailure → Bool) (news : List NewFailure) (key : Identity)
      → counter classes (filter (λ new. not (test new)) news) key
          + counter classes (filter test news) key
        ≡ counter classes news key
  unfolding counter
  counter-filter test [] key = omega arith
  counter-filter test (new ∷ news) key = ground (arith, counter-filter test news key)

  -- Where the suites can be compared nothing aborts or drifts, the new failures are in blocking
  -- gates and the advisory ones in advisory gates, and together they are, for each identity, what
  -- head has more of than the baseline, or all that head has of a survived mutant.
  pub compare_suites-splits :
      (head baseline : SuiteRun)
      → IsComparable head baseline
      → ((compare_suites classes head baseline).aborted ≡ [])
        × ((compare_suites classes head baseline).drift ≡ [])
        × All
            (λ new. ¬ Elem new.gate head.advisory_gates)
            (compare_suites classes head baseline).new_failures
        × All
            (λ new. Elem new.gate head.advisory_gates)
            (compare_suites classes head baseline).advisory_failures
        × ((key : Identity)
            → counter classes (compare_suites classes head baseline).new_failures key
                + counter classes (compare_suites classes head baseline).advisory_failures key
              ≡ counter classes (all_failures head.results) key
                - (if is_survivor key
                    then 0
                    else counter classes (all_failures baseline.results) key))
  unfolding split_failures
  compare_suites-splits head baseline h =
      let left = subtract_baseline classes head.results baseline.results in
      rw (compare_suites_comparable classes head baseline h) (
        refl,
        refl,
        All-filter (λ new. not (elem new.gate head.advisory_gates))
            (λ new. ¬ Elem new.gate head.advisory_gates)
            (λ new e. ground (arith, elem_iff new.gate head.advisory_gates)) left,
        All-filter (λ new. elem new.gate head.advisory_gates)
            (λ new. Elem new.gate head.advisory_gates)
            (λ new e. (elem_iff new.gate head.advisory_gates).0 e) left,
        (λ key.
            counter-filter (λ new. elem new.gate head.advisory_gates) left key
            ∙ counter-subtract_baseline classes head.results baseline.results key),
      )

  -- Nothing is left of a list whose every count is zero at the keys that pass the test.
  All-survivors :
      (news : List NewFailure)
      → ((key : Identity) → is_survivor key ≡ false → counter classes news key ≡ 0)
      → All (λ new. is_survivor (key_of classes new) ≡ true) news
  unfolding counter
  All-survivors [] h = tt
  All-survivors (new ∷ news) h = (
    ground (
      arith,
      h (key_of classes new),
      same_identity_iff (key_of classes new) (key_of classes new),
    ),
    All-survivors news (λ key e. ground (arith, h key e)),
  )

  -- A head that reports exactly what its baseline reported, where the suites can be compared, has
  -- no new failures but survived mutants.
  pub compare_suites_self :
      (head baseline : SuiteRun)
      → head.results ≡ baseline.results
      → IsComparable head baseline
      → All
          (λ new. is_survivor (key_of classes new) ≡ true)
          (compare_suites classes head baseline).new_failures
  compare_suites_self head baseline same_results h =
      All-survivors (compare_suites classes head baseline).new_failures λ key e.
        let total = (compare_suites-splits head baseline h).4 key in
        let agree = ap (λ r. counter classes (all_failures r) key) same_results in
        ground (arith, total, agree)
