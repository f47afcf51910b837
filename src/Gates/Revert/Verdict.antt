-- ===== src/Gates/Revert/Verdict.antt =====
-- What the `revert` gate says of the tests that it ran.
use saffron.Prelude.{
  ◌≡◌, refl, ◌↔◌, ap, not, ◌&&◌, List, [], ◌∷◌, ◌++◌, map, Option, none, some, arith, Text, elem,
  Elem, elem_iff, Elem-filter, filter, any, is_empty, if_cases,
}
use saffron.Intake.{Criterion}
use saffron.Gates.Contract.{GateResult, pass, fail}
use saffron.Gates.Baseline.{ran}
use saffron.Gates.Criteria.{failure_codes}
use saffron.Gates.Census.Verdict.{Lists, files}
use saffron.Gates.Selection.Choice.{Elem-sorted_set}
use saffron.Gates.Selection.{proceed, plan_revert}
use saffron.Gates.Revert.{
  passed_names, theater, theater_verdict, not_keyed, judge_keyed, judge_accounted, judge_collected,
  judge_reverted, ran_reverted, judge_run, Worktree, execute, revert_gate,
}

files-theater : (names : List Text) → files (map theater names) ≡ names
files-theater [] = refl
files-theater (name ∷ names) = ap (λ rest. name ∷ rest) (files-theater names)

-- The verdict on tests that pass, where `Passed` tells which do.
abbrev Judges : (Text → Type 0) → GateResult → Type 0
Judges Passed result =
    (result.status ≡ fail → (name : Text) → Elem name (files result.failures) ↔ Passed name)
    × (result.status ≡ pass → (name : Text) → ¬ Passed name)

theater_verdict-Judges :
    (tool : Option Text) (subset : List Text) (note : Text) (passed : List Text)
    → Judges (λ name. Elem name passed) (theater_verdict tool subset note passed)
unfolding theater_verdict
theater_verdict-Judges tool subset note [] = ((λ h. absurd (ground arith)), (λ h name m. m))
theater_verdict-Judges tool subset note (name ∷ passed) =
    ((λ h other. rw files-theater ((λ m. m), (λ m. m))), (λ h. absurd (ground arith)))

Judges-map :
    (P Q : Text → Type 0) (result : GateResult)
    → ((name : Text) → P name ↔ Q name)
    → Judges P result
    → Judges Q result
Judges-map P Q result h (f, p) = (
  (λ e name. ((λ m. (h name).0 ((f e name).0 m)), (λ q. (f e name).1 ((h name).1 q)))),
  (λ e name q. p e name ((h name).1 q)),
)

-- A test that ran and did not fail.
abbrev pub PassedAmong : List Text → List Text → List Text → Text → Type 0
PassedAmong subset collected failed name =
    Elem name subset × (Elem name collected × (¬ Elem name failed))

passed_names_iff :
    (subset collected failed : List Text) (name : Text)
    → Elem name (passed_names subset collected failed) ↔ PassedAmong subset collected failed name
unfolding passed_names
passed_names_iff subset collected failed name =
    let test = λ (n : Text). elem n collected && not (elem n failed) in
    ground (
      arith,
      Elem-sorted_set name (filter test subset),
      Elem-filter test name subset,
      elem_iff name collected,
      elem_iff name failed,
    )

judge_keyed-Judges :
    (tool : Option Text) (subset collected listed failed : List Text) (note : Text)
    → Judges
        (PassedAmong subset collected failed)
        (judge_keyed tool subset collected listed failed note)
unfolding judge_keyed
judge_keyed-Judges tool subset collected listed failed note =
    if_cases (Judges (PassedAmong subset collected failed))
      (not (is_empty failed) && not (any (λ code. elem code (collected ++ listed)) failed))
      not_keyed (theater_verdict tool subset note (passed_names subset collected failed))
      (λ _. ((λ h. absurd (ground arith)), (λ h. absurd (ground arith))))
      (λ _.
        Judges-map (λ name. Elem name (passed_names subset collected failed))
          (PassedAmong subset collected failed)
          (theater_verdict tool subset note (passed_names subset collected failed))
          (passed_names_iff subset collected failed)
          (theater_verdict-Judges tool subset note (passed_names subset collected failed)))

judge_accounted-Judges :
    (tool : Option Text) (subset collected listed failed : List Text) (note : Text)
    (unaccounted : List Text)
    → Judges
        (PassedAmong subset collected failed)
        (judge_accounted tool subset collected listed failed note unaccounted)
unfolding judge_accounted
judge_accounted-Judges tool subset collected listed failed note [] =
    judge_keyed-Judges tool subset collected listed failed _
judge_accounted-Judges tool subset collected listed failed note (name ∷ unaccounted) =
    ((λ h. absurd (ground arith)), (λ h. absurd (ground arith)))

-- The reverted run collected the test, and reports no failure with its name as code.
abbrev pub PassedReverted : List Text → GateResult → Text → Type 0
PassedReverted subset result name =
    Elem name subset × (Lists name result.collected × (¬ Elem name (failure_codes result.failures)))

judge_collected-Judges :
    (subset : List Text) (note : Text) (result : GateResult)
    (collected uncollected : Option (List Text))
    → Judges
        (λ name.
          Elem name subset × (Lists name collected × (¬ Elem name (failure_codes result.failures))))
        (judge_collected subset note result collected uncollected)
unfolding judge_collected
judge_collected-Judges subset note result none uncollected =
    ((λ h. absurd (ground arith)), (λ h. absurd (ground arith)))
judge_collected-Judges subset note result (some collected) none =
    judge_keyed-Judges result.tool subset collected [] (failure_codes result.failures) note
judge_collected-Judges subset note result (some collected) (some uncollected) =
    judge_accounted-Judges result.tool subset collected _ (failure_codes result.failures) note _

judge_reverted-Judges :
    (subset : List Text) (note : Text) (result : GateResult)
    → Judges (PassedReverted subset result) (judge_reverted subset note result)
unfolding judge_reverted
judge_reverted-Judges subset note result =
    if_cases (Judges (PassedReverted subset result)) (not (ran result.status)) _ _
      (λ _. ((λ h. absurd (ground arith)), (λ h. absurd (ground arith))))
      (λ _. judge_collected-Judges subset note result result.collected result.uncollected)

-- Where the revert gate goes on to run tests with source reverted and the run gives a result: if
-- the gate fails, its failures name exactly the tests of the run that were collected and are not
-- among the failures' codes, and if it passes there is no such test.
pub revert_gate_judges :
    (tree : Worktree) (prior results : List GateResult) (acceptance : List Criterion)
    (changed_files test_paths exempt source subset : List Text) (note : Text) (result : GateResult)
    → plan_revert prior results acceptance changed_files test_paths tree.dirty exempt
      ≡ proceed source subset note
    → tree.run_reverted source subset ≡ ran_reverted result
    → ((revert_gate tree prior results acceptance changed_files test_paths exempt).status ≡ fail
        → (name : Text)
        → Elem name (
            files
              (revert_gate tree prior results acceptance changed_files test_paths exempt).failures)
          ↔ PassedReverted subset result name)
      × ((revert_gate tree prior results acceptance changed_files test_paths exempt).status ≡ pass
          → (name : Text) → ¬ PassedReverted subset result name)
unfolding revert_gate execute judge_run
revert_gate_judges tree prior results acceptance changed_files test_paths exempt source subset note
      result planned run =
    rw (planned, run) (unfold judge_run in judge_reverted-Judges subset note result)
