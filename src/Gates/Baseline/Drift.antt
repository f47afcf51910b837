-- ===== src/Gates/Baseline/Drift.antt =====
-- When two suites drift.
use saffron.Prelude.{
  append-eq-nil, ◌≡◌, refl, ◌↔◌, ◌⊎◌, true, List, [], ◌∷◌, Option, none, some, arith, Text,
  same_iff, All,
}
use saffron.Gates.Contract.{GateResult, Status, pass, fail, skip, error}
use saffron.Gates.Baseline.{
  result_of, ran, is_skip, same_tool, drift_between, drift_at, suite_drift,
}

same_tool_iff : (a b : Option Text) → (same_tool a b ≡ true) ↔ (a ≡ b)
unfolding same_tool
same_tool_iff none none = ground arith
same_tool_iff none (some b) = ground arith
same_tool_iff (some a) none = ground arith
same_tool_iff (some a) (some b) = ground (arith, same_iff a b)

-- The gate came to a verdict.
abbrev pub Ran : GateResult → Type 0
Ran result = (result.status ≡ pass) ⊎ (result.status ≡ fail)

-- Where a gate ran on both sides it ran the same tool, and it does not skip at head unless it
-- skipped at the baseline.
abbrev pub IsSteady : GateResult → GateResult → Type 0
IsSteady was result =
    (Ran was → Ran result → was.tool ≡ result.tool) × (result.status ≡ skip → was.status ≡ skip)

pub ran_iff : (result : GateResult) → (ran result.status ≡ true) ↔ Ran result
unfolding ran
ran_iff result = ground arith

is_skip_iff : (s : Status) → (is_skip s ≡ true) ↔ (s ≡ skip)
unfolding is_skip
is_skip_iff pass = ground arith
is_skip_iff fail = ground arith
is_skip_iff skip = ground arith
is_skip_iff error = ground arith

drift_between_iff :
    (was result : GateResult) → (drift_between was result ≡ []) ↔ IsSteady was result
unfolding drift_between
drift_between_iff was result = ground (
  arith,
  same_tool_iff was.tool result.tool,
  ran_iff was,
  ran_iff result,
  is_skip_iff was.status,
  is_skip_iff result.status,
)

-- The baseline's result of the same gate, if it has one, is one that the result is steady after.
abbrev pub IsSteadyAfter : Option GateResult → GateResult → Type 0
IsSteadyAfter none result = Unit
IsSteadyAfter (some was) result = IsSteady was result

IsSteadyAfter-iff :
    (before : Option GateResult) (result : GateResult)
    → (drift_at before result ≡ []) ↔ IsSteadyAfter before result
unfolding drift_at
IsSteadyAfter-iff none result = ((λ h. tt), (λ h. refl))
IsSteadyAfter-iff (some was) result = drift_between_iff was result

-- Two suites drift nowhere exactly if every gate at head that has a result at the baseline is
-- steady: where it ran on both sides it ran the same tool, and it skips at head only if it skipped
-- at the baseline.
pub suite_drift_iff :
    (head base : List GateResult)
    → (suite_drift head base ≡ [])
      ↔ All (λ result. IsSteadyAfter (result_of result.gate base) result) head
unfolding suite_drift
suite_drift_iff [] base = ((λ h. tt), (λ h. refl))
suite_drift_iff (result ∷ head) base = ground (
  arith,
  append-eq-nil (drift_at (result_of result.gate base) result) (suite_drift head base),
  IsSteadyAfter-iff (result_of result.gate base) result,
  suite_drift_iff head base,
)
