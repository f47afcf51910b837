-- ===== src/Gates/Baseline.antt =====
-- saffron/gates/baseline.py: the subtraction of the baseline's failures, the drift between two
-- suites, and the no-progress rule.
pub mod Counts
pub mod Drift
use saffron.Prelude.{
  ℕ, suc, ◌-◌, Bool, true, false, not, ◌&&◌, ◌||◌, List, [], ◌∷◌, ◌++◌, map, Option, none, some,
  Text, codes, same, all, filter, ◌==◌, if◌then◌else◌,
}
use saffron.Gates.Contract.{
  CharClasses, Failure, GateResult, Status, pass, fail, skip, error, Identity, identity,
  same_identity,
}

pub record NewFailure : Type 0 where
  pub gate : Text
  pub failure : Failure

-- `for result in results for failure in result.failures`
unfoldable pub all_failures : List GateResult → List NewFailure
all_failures [] = []
all_failures (result ∷ results) =
    map (λ failure. record { gate = result.gate; failure = failure }) result.failures
    ++ all_failures results

unfoldable pub cancels : Text → Failure → Bool
cancels gate failure =
    not (same gate (codes "witness") && same failure.code (codes "survived-mutant"))

-- A `Counter` of identities, by the count of each.
abbrev pub Counter : Type 0
Counter = Identity → ℕ

-- `remaining[key] -= 1`
unfoldable pub take_one : Counter → Identity → Counter
take_one remaining key other =
    if same_identity key other then remaining other - 1 else remaining other

module _ (classes : CharClasses) where
  abbrev pub key_of : NewFailure → Identity
  key_of new = identity classes new.gate new.failure

  -- `Counter(identity(…) for …)`
  unfoldable pub counter : List NewFailure → Counter
  counter [] key = 0
  counter (new ∷ rest) key =
      let more = counter rest key in if same_identity (key_of new) key then suc more else more

  unfoldable pub cancelling : List GateResult → Counter
  unfolding counter cancels all_failures
  cancelling results = counter (filter (λ new. cancels new.gate new.failure) (all_failures results))

  -- The loop of `subtract_baseline`, over what is left of head and of the baseline.
  unfoldable pub subtract_from : List NewFailure → Counter → List NewFailure
  unfolding take_one
  subtract_from [] remaining = []
  subtract_from (new ∷ rest) remaining =
      let kept = subtract_from rest remaining in
      let cancelled = subtract_from rest (take_one remaining (key_of new)) in
      if remaining (key_of new) == 0 then new ∷ kept else cancelled

  unfoldable pub subtract_baseline : List GateResult → List GateResult → List NewFailure
  unfolding subtract_from cancelling
  subtract_baseline head base = subtract_from (all_failures head) (cancelling base)

  -- `Counter(current) == Counter(previous)`: the counts agree at every key of either.
  unfoldable pub is_no_progress : List NewFailure → List NewFailure → Bool
  unfolding counter
  is_no_progress current previous =
      all (λ new. counter current (key_of new) == counter previous (key_of new))
        (current ++ previous)

-- An entry of `suite_drift`, by the values that its message shows.
pub data DriftEntry : Type 0 where
  tool_changed : Text → Option Text → Option Text → DriftEntry
  stopped : Text → Status → DriftEntry

-- `{result.gate: result for result in base}.get(gate)`: a later result replaces an earlier one.
unfoldable pub result_of : Text → List GateResult → Option GateResult
result_of gate [] = none
result_of gate (result ∷ results) = elim (result_of gate results) [
  | some later ↦ some later
  | none ↦ if same result.gate gate then some result else none
]

unfoldable pub ran : Status → Bool
ran pass = true
ran fail = true
ran skip = false
ran error = false

unfoldable pub is_skip : Status → Bool
is_skip skip = true
is_skip _ = false

unfoldable pub same_tool : Option Text → Option Text → Bool
same_tool none none = true
same_tool (some a) (some b) = same a b
same_tool _ _ = false

unfoldable pub drift_between : GateResult → GateResult → List DriftEntry
unfolding ran is_skip same_tool
drift_between was result =
    if (ran was.status && ran result.status) && not (same_tool was.tool result.tool)
    then tool_changed result.gate was.tool result.tool ∷ []
    else if not (is_skip was.status) && is_skip result.status
    then stopped result.gate was.status ∷ []
    else []

unfoldable pub drift_at : Option GateResult → GateResult → List DriftEntry
unfolding drift_between
drift_at none result = []
drift_at (some was) result = drift_between was result

unfoldable pub suite_drift : List GateResult → List GateResult → List DriftEntry
unfolding drift_at
suite_drift [] base = []
suite_drift (result ∷ head) base =
    drift_at (result_of result.gate base) result ++ suite_drift head base
