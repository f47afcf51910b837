-- ===== src/Gates/Criteria.antt =====
-- saffron/gates/core/criteria.py: did each criterion's witness run, and turn green?
pub mod Sides
pub mod Verdict
use saffron.Prelude.{
  Bool, true, false, not, ◌&&◌, List, [], ◌∷◌, ◌++◌, map, Option, none, some, Text, codes, elem,
  any, filter, length, is_empty, decimal, if◌then◌else◌,
}
use saffron.Gates.Contract.{Failure, GateResult, gate_result, pass, fail, skip}
use saffron.Intake.{Criterion}

-- `_Side`: what one tree's enumerating gates collected, and the codes of their failures.
pub record Side : Type 0 where
  pub collected : List Text
  pub failed : List Text

unfoldable pub failure_codes : List Failure → List Text
failure_codes failures = map (λ failure. failure.code) failures

-- One more gate, by what it collected and the codes of its failures: a gate that does not
-- enumerate adds nothing.
unfoldable pub add_side : Option (List Text) → List Text → Option Side → Option Side
add_side none keys side = side
add_side (some names) keys none = some (record { collected = names; failed = keys })
add_side (some names) keys (some more) =
    some (record { collected = names ++ more.collected; failed = keys ++ more.failed })

-- The union over the enumerating gates, or `none` if there is none.
unfoldable pub enumerated : List GateResult → Option Side
unfolding add_side failure_codes
enumerated [] = none
enumerated (result ∷ results) =
    add_side result.collected (failure_codes result.failures) (enumerated results)

-- `None` if the failures are keyed on something that is not an enumerated name.
unfoldable pub check_keys : Option Side → Option Side
check_keys none = none
check_keys (some side) =
    if not (is_empty side.failed) && not (any (λ code. elem code side.collected) side.failed)
    then none
    else some side

-- `_side`
unfoldable pub side_of : List GateResult → Option Side
unfolding enumerated check_keys
side_of results = check_keys (enumerated results)

unfoldable pub green : Side → Text → Bool
green side witness = elem witness side.collected && not (elem witness side.failed)

unfoldable pub green_at_base : Criterion → Side → Bool
unfolding green
green_at_base criterion before = not criterion.preserves && green before criterion.witness

unfoldable pub unmet : Criterion → Text → Text → Failure
unmet criterion code why = record {
  file = criterion.witness;
  line = none;
  code = code;
  message = why ++ (codes " — " ++ criterion.claim);
}

unfoldable pub judge : Criterion → Side → Side → Option Failure
unfolding green green_at_base
judge criterion before after =
    if not (elem criterion.witness after.collected)
    then some (
        unmet criterion (codes "witness-not-collected")
          (codes "names nothing the suite ran at head"))
    else if not (green after criterion.witness)
    then some
        (unmet criterion (codes "witness-failed") (codes "collected at head and failed there"))
    else if criterion.preserves
    then if green before criterion.witness
      then none
      else some (
          unmet criterion (codes "witness-not-preserved")
            (codes "declared `preserves` but was not green at base_sha"))
    else if green_at_base criterion before
    then some (
        unmet criterion (codes "witness-green-at-base")
          (codes "passed at base_sha, so it proves nothing about this change"))
    else none

unfoldable pub green_witnesses : List Criterion → Option Side → List Text
unfolding green_at_base
green_witnesses acceptance none = []
green_witnesses acceptance (some before) =
    map (λ c. c.witness) (filter (λ c. green_at_base c before) acceptance)

unfoldable pub witnesses_green_at_base : List Criterion → List GateResult → List Text
unfolding green_witnesses side_of
witnesses_green_at_base acceptance base = green_witnesses acceptance (side_of base)

abbrev pub keep_failure : Option Failure → List Failure → List Failure
keep_failure none failures = failures
keep_failure (some failure) failures = failure ∷ failures

unfoldable pub unmet_criteria : List Criterion → Side → Side → List Failure
unfolding judge
unmet_criteria [] before after = []
unmet_criteria (criterion ∷ acceptance) before after =
    keep_failure (judge criterion before after) (unmet_criteria acceptance before after)

unfoldable pub criteria_verdict : List Criterion → List Failure → GateResult
criteria_verdict acceptance [] =
    gate_result (codes "criteria") pass []
      (decimal (length acceptance) ++ codes " criteria witnessed at head")
criteria_verdict acceptance (failure ∷ failures) =
    gate_result (codes "criteria") fail (failure ∷ failures) (
      decimal (length (failure ∷ failures))
      ++ (codes " of "
          ++ (decimal (length acceptance) ++ codes " criteria have no passing witness")))

abbrev pub unreadable_at : Text → GateResult
unreadable_at where_ = gate_result (codes "criteria") skip [] (
    codes "no readable enumeration at "
    ++ (where_
        ++ codes
            ": the runner reported no collected tests, or keyed its failures on something other than a node id"))

unfoldable pub criteria_between : List Criterion → Option Side → Option Side → GateResult
unfolding criteria_verdict unmet_criteria
criteria_between acceptance none after = unreadable_at (codes "base_sha")
criteria_between acceptance (some before) none = unreadable_at (codes "head")
criteria_between acceptance (some before) (some after) =
    criteria_verdict acceptance (unmet_criteria acceptance before after)

unfoldable pub criteria_gate : List Criterion → List GateResult → List GateResult → GateResult
unfolding criteria_between side_of
criteria_gate [] base head =
    gate_result (codes "criteria") skip [] (codes "the spec declares no witnesses")
criteria_gate (criterion ∷ acceptance) base head =
    criteria_between (criterion ∷ acceptance) (side_of base) (side_of head)
