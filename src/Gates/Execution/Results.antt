-- ===== src/Gates/Execution/Results.antt =====
-- Which result `run_gate` gives.
use saffron.Prelude.{
  is_empty_iff, ℕ, ◌≡◌, refl, ◌≢◌, ◌↔◌, true, false, List, [], ◌∷◌, Option, none, some, arith, Text,
  same, same_iff, if_cases,
}
use saffron.Gates.Contract.{ℤ, pos, GateResult, error}
use saffron.Gates.Baseline.Drift.{Ran, ran_iff}
use saffron.Gates.Execution.{
  Completed, Execution, not_executable, completed, Decoded, unusable, decoded, Host, is_named,
  is_zero, judge_result, show_int, check_gate, parse_gate_json, judge_parsed, judge_execution,
  run_gate,
}

-- A result that is believed: a verdict names its tool, and an exit code that is no success comes
-- with failures.
abbrev pub IsBelieved : Text → Completed → GateResult → Type 0
IsBelieved name done result =
    (result.gate ≡ name)
    × ((result.status ≢ error)
        × ((Ran result → (result.tool ≢ none) × (result.tool ≢ some []))
            × ((result.failures ≡ []) → done.returncode ≡ pos 0)))

is_named_iff : (tool : Option Text) → (is_named tool ≡ true) ↔ ((tool ≢ none) × (tool ≢ some []))
unfolding is_named
is_named_iff none = ground arith
is_named_iff (some []) = ground arith
is_named_iff (some (c ∷ name)) = ground arith

is_zero_iff : (code : ℤ) → (is_zero code ≡ true) ↔ (code ≡ pos 0)
unfolding is_zero
is_zero_iff (pos ℕ.zero) = ground arith
is_zero_iff (pos (ℕ.suc n)) = ground arith
is_zero_iff (ℤ.negsuc n) = ground arith

judge_result_iff :
    (name : Text) (elapsed : ℕ) (done : Completed) (code_text : Text) (result : GateResult)
    → ((judge_result name elapsed (is_zero done.returncode) code_text result).status ≢ error) ↔ (
        (result.status ≢ error)
        × ((Ran result → (result.tool ≢ none) × (result.tool ≢ some []))
            × ((result.failures ≡ []) → done.returncode ≡ pos 0)))
unfolding judge_result
judge_result_iff name elapsed done code_text result = ground (
  arith,
  ran_iff result,
  is_named_iff result.tool,
  is_zero_iff done.returncode,
  is_empty_iff result.failures,
)

module _ {World : Type 0} (host : Host World) where
  abbrev Decodes : Text → Completed → Decoded → Type 0
  Decodes name done (unusable exc) = ⊥
  Decodes name done (decoded result) = IsBelieved name done result

  -- The run ended by itself, with a result on its stdout that is believed.
  abbrev pub IsUsable : Text → Execution → Type 0
  IsUsable name (not_executable exc) = ⊥
  IsUsable name (completed done) =
      (done.timed_out ≡ false) × Decodes name done (host.decode done.stdout)

  judge_parsed_iff :
      (name : Text) (elapsed : ℕ) (done : Completed) (output : Decoded)
      → ((judge_parsed host name elapsed done (check_gate host name output)).status ≢ error)
        ↔ Decodes name done output
  unfolding judge_parsed check_gate
  judge_parsed_iff name elapsed done (unusable exc) = ground arith
  judge_parsed_iff name elapsed done (decoded result) =
      if_cases
        (λ parsed.
          ((judge_parsed host name elapsed done parsed).status ≢ error)
          ↔ IsBelieved name done result)
        (same result.gate name) (decoded result) _
        (λ g. ground (
          arith,
          same_iff result.gate name,
          judge_result_iff name elapsed done (show_int done.returncode) result,
        ))
        (λ g. ground (arith, same_iff result.gate name))

  -- A gate's run is no error exactly if it could be executed, ended in time and printed a result
  -- that decodes, for this gate and no error itself, which names a tool if it passes or fails and
  -- reports failures unless the exit code is zero.
  pub run_gate-error_iff :
      (name executable : Text) (subset : List Text) (world : World)
      → ((run_gate host name executable subset world).0.status ≢ error)
        ↔ IsUsable name (host.execute world (executable ∷ subset)).0
  unfolding run_gate judge_execution parse_gate_json
  run_gate-error_iff name executable subset world =
      cases (host.execute world (executable ∷ subset)).0
    where
      cases :
          (execution : Execution)
          → ((judge_execution host name
                (host.elapsed_ms (host.execute world (executable ∷ subset)).1)
                execution).status
              ≢ error)
            ↔ IsUsable name execution
      cases (not_executable exc) = ground arith
      cases (completed done) = ground (
        arith,
        judge_parsed_iff name (host.elapsed_ms (host.execute world (executable ∷ subset)).1) done
            (host.decode done.stdout),
      )

  judge_parsed-gate :
      (name : Text) (elapsed : ℕ) (done : Completed) (output : Decoded)
      → (judge_parsed host name elapsed done (check_gate host name output)).gate ≡ name
  unfolding judge_parsed check_gate judge_result
  judge_parsed-gate name elapsed done (unusable exc) = refl
  judge_parsed-gate name elapsed done (decoded result) =
      if_cases (λ parsed. (judge_parsed host name elapsed done parsed).gate ≡ name)
        (same result.gate name) (decoded result) _ (λ g. ground (arith, same_iff result.gate name))
        (λ g. refl)

  pub run_gate-gate :
      (name executable : Text) (subset : List Text) (world : World)
      → (run_gate host name executable subset world).0.gate ≡ name
  unfolding run_gate judge_execution parse_gate_json
  run_gate-gate name executable subset world = cases (host.execute world (executable ∷ subset)).0
    where
      cases :
          (execution : Execution)
          → (judge_execution host name
              (host.elapsed_ms (host.execute world (executable ∷ subset)).1)
              execution).gate
            ≡ name
      cases (not_executable exc) = refl
      cases (completed done) = ground (
        arith,
        judge_parsed-gate name (host.elapsed_ms (host.execute world (executable ∷ subset)).1) done
            (host.decode done.stdout),
      )
