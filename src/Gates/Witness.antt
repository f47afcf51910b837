-- ===== src/Gates/Witness.antt =====
-- `witness_gate` of saffron/gates/core/witness.py: each mutant, applied, tested alone and undone.
pub mod Verdict
pub mod Survivors
use saffron.Prelude.{
  Bool, true, false, not, List, [], ◌∷◌, ◌++◌, Option, none, some, Text, codes, elem, length,
  is_empty, decimal, join, if◌then◌else◌,
}
use saffron.Intake.{Criterion, Mutant}
use saffron.Gates.Contract.{Failure, GateResult, Status, gate_result, pass, fail, skip, error}

-- What `with mutate(mutant): run_tests([witness])` came to: an exception of `mutate` behind the
-- edit or before it, a reason why the edit did not apply, an exception of the run, or its result.
pub data Trial : Type 0 where
  not_restored : Text → Option Text → Trial
  not_applied : Text → Trial
  refused : Text → Trial
  not_run : Text → Trial
  tested : GateResult → Trial

-- `[c for c in acceptance if c.mutant is not None]`, each with its mutant.
unfoldable pub declared_mutants : List Criterion → List (Criterion × Mutant)
declared_mutants [] = []
declared_mutants (criterion ∷ acceptance) = elim criterion.mutant [
  | none ↦ declared_mutants acceptance
  | some mutant ↦ (criterion, mutant) ∷ declared_mutants acceptance
]

-- The loop's variables.
pub record Tally : Type 0 where
  pub died : List Text
  pub survived : List Failure
  pub unproven : List Text
  pub tool : Option Text

pub data Outcome : Type 0 where
  stopped : GateResult → Outcome
  tallied : Tally → Outcome

-- `tool or other`: an empty name is no tool.
unfoldable pub tool_or : Option Text → Option Text → Option Text
tool_or none other = other
tool_or (some []) other = other
tool_or (some (c ∷ name)) other = some (c ∷ name)

abbrev pub witness_error : Option Text → Text → Outcome
witness_error tool summary = stopped (record {
  schema_version = 1;
  gate = codes "witness";
  status = error;
  tool = tool;
  collected = none;
  uncollected = none;
  failures = [];
  summary = summary;
  duration_ms = none;
})

abbrev pub unproven_because : Criterion → Text → Tally → Outcome
unproven_because criterion reason tally = tallied (record {
  died = tally.died;
  survived = tally.survived;
  unproven = tally.unproven ++ (criterion.witness ++ (codes " (" ++ (reason ++ codes ")"))) ∷ [];
  tool = tally.tool;
})

abbrev pub survivor : Text → Criterion → Mutant → Failure
survivor edit_noun criterion mutant = record {
  file = criterion.witness;
  line = none;
  code = codes "survived-mutant";
  message =
      codes "ran and passed with its "
      ++ (edit_noun ++ (codes " applied to " ++ (mutant.file ++ (codes " — " ++ criterion.claim))));
}

-- The result of the one test under the mutant.
unfoldable pub judge_tested : Text → Criterion → Mutant → Tally → GateResult → Status → Outcome
unfolding tool_or
judge_tested edit_noun criterion mutant tally result error = witness_error result.tool (
    codes "the `tests` gate errored under "
    ++ (criterion.witness ++ (codes "'s " ++ (edit_noun ++ (codes " — " ++ result.summary)))))
judge_tested edit_noun criterion mutant tally result fail = tallied (record {
  died = tally.died ++ criterion.witness ∷ [];
  survived = tally.survived;
  unproven = tally.unproven;
  tool = tool_or tally.tool result.tool;
})
judge_tested edit_noun criterion mutant tally result pass = tallied (record {
  died = tally.died;
  survived = tally.survived ++ survivor edit_noun criterion mutant ∷ [];
  unproven = tally.unproven;
  tool = tool_or tally.tool result.tool;
})
judge_tested edit_noun criterion mutant tally result skip =
    unproven_because criterion (codes "the `tests` gate reported skip") tally

unfoldable pub judge_trial : Text → Criterion → Mutant → Tally → Trial → Outcome
unfolding judge_tested
judge_trial edit_noun criterion mutant tally (not_restored exc none) = witness_error none (
    codes "could not restore "
    ++ (mutant.file ++ (codes " after its " ++ (edit_noun ++ (codes " — " ++ exc)))))
judge_trial edit_noun criterion mutant tally (not_restored exc (some failed_to_run)) =
    witness_error none (
      codes "could not restore "
      ++ (mutant.file
          ++ (codes " after its "
              ++ (edit_noun
                  ++ (codes " — "
                      ++ (exc
                          ++ (codes " (the run also failed — "
                              ++ (failed_to_run ++ codes ")"))))))))
judge_trial edit_noun criterion mutant tally (not_applied exc) = witness_error none (
    codes "could not apply "
    ++ (mutant.file ++ (codes "'s " ++ (edit_noun ++ (codes " — " ++ exc)))))
judge_trial edit_noun criterion mutant tally (refused reason) =
    unproven_because criterion reason tally
judge_trial edit_noun criterion mutant tally (not_run failed_to_run) = witness_error none (
    codes "the `tests` gate could not be executed for "
    ++ (criterion.witness ++ (codes "'s " ++ (edit_noun ++ (codes " — " ++ failed_to_run)))))
judge_trial edit_noun criterion mutant tally (tested result) =
    judge_tested edit_noun criterion mutant tally result result.status

abbrev pub is_missing : Text → Option (List Text) → Bool
is_missing witness none = false
is_missing witness (some names) = not (elem witness names)

abbrev pub verdict_of : Option Text → Status → List Failure → Text → GateResult
verdict_of tool status failures summary = record {
  schema_version = 1;
  gate = codes "witness";
  status = status;
  tool = tool;
  collected = none;
  uncollected = none;
  failures = failures;
  summary = summary;
  duration_ms = none;
}

abbrev pub unproven_note : Text → List Text → Text
unproven_note edit_noun unproven =
    if is_empty unproven
    then []
    else codes " — "
      ++ (decimal (length unproven)
          ++ (codes " " ++ (edit_noun ++ (codes "(s) not proven: " ++ join (codes ", ") unproven))))

-- The verdict behind the loop, on the survivors and on the mutants that died.
unfoldable pub witness_verdict :
    Text → List (Criterion × Mutant) → Tally → List Failure → List Text → GateResult
witness_verdict edit_noun declared tally (failure ∷ survived) died =
    verdict_of tally.tool fail (failure ∷ survived) (
      decimal (length (failure ∷ survived))
      ++ (codes " of "
          ++ (decimal (length declared)
              ++ (codes " witness(es) survived their own "
                  ++ (edit_noun ++ unproven_note edit_noun tally.unproven)))))
witness_verdict edit_noun declared tally [] (name ∷ died) = verdict_of tally.tool pass [] (
    decimal (length (name ∷ died))
    ++ (codes " of "
        ++ (decimal (length declared)
            ++ (codes " witness(es) died under their own "
                ++ (edit_noun ++ unproven_note edit_noun tally.unproven)))))
witness_verdict edit_noun declared tally [] [] = gate_result (codes "witness") skip [] (
    codes "no declared "
    ++ (edit_noun
        ++ (codes " produced a trustworthy verdict" ++ unproven_note edit_noun tally.unproven)))

unfoldable pub conclude : Text → List (Criterion × Mutant) → Outcome → GateResult
unfolding witness_verdict
conclude edit_noun declared (stopped result) = result
conclude edit_noun declared (tallied tally) =
    witness_verdict edit_noun declared tally tally.survived tally.died

-- The trees that mutants are applied to, as a state: one mutant applied, one test run, and the
-- mutant undone.
module _ {World : Type 0} (try_mutant : World → Mutant → Text → Trial × World) (edit_noun : Text)
    (collected : Option (List Text)) where
  -- A witness that the tree does not hold is unproven, and its mutant is never applied.
  unfoldable pub attempt : World → Criterion → Mutant → Trial × World
  attempt world criterion mutant =
      if is_missing criterion.witness collected
      then (refused (codes "no such witness in this tree"), world)
      else try_mutant world mutant criterion.witness

  -- The loop ends where a trial stopped it, and goes on where one was tallied.
  abbrev pub go_on : Outcome → World → (Tally → Outcome × World) → Outcome × World
  go_on (stopped result) world next = (stopped result, world)
  go_on (tallied tally) world next = next tally

  unfoldable pub run_mutants : List (Criterion × Mutant) → World → Tally → Outcome × World
  unfolding attempt judge_trial
  run_mutants [] world tally = (tallied tally, world)
  run_mutants ((criterion, mutant) ∷ declared) world tally =
      let (trial, world') = attempt world criterion mutant in
      go_on (judge_trial edit_noun criterion mutant tally trial) world'
        λ tally'. run_mutants declared world' tally'

  abbrev pub no_tally : Tally
  no_tally = record { died = []; survived = []; unproven = []; tool = none }

  unfoldable pub run_declared : List (Criterion × Mutant) → World → GateResult × World
  unfolding run_mutants conclude
  run_declared [] world =
      (gate_result (codes "witness") skip [] (codes "the spec declares no mutants"), world)
  run_declared (one ∷ declared) world =
      let (outcome, world') = run_mutants (one ∷ declared) world no_tally in
      (conclude edit_noun (one ∷ declared) outcome, world')

  unfoldable pub witness_gate : List Criterion → World → GateResult × World
  unfolding run_declared declared_mutants
  witness_gate acceptance world = run_declared (declared_mutants acceptance) world
