-- ===== src/Gates/Witness/Survivors.antt =====
-- The failures of the `witness` gate are survivors, which no baseline cancels.
use saffron.Prelude.{
  ◌≡◌, refl, true, List, [], ◌∷◌, ◌++◌, Option, none, some, arith, Text, codes, same_iff, All,
  All-map,
}
use saffron.Intake.{Criterion, Mutant}
use saffron.Gates.Contract.{
  CharClasses, Failure, GateResult, Status, pass, fail, skip, error, identity,
}
use saffron.Gates.Baseline.{all_failures, counter, subtract_baseline}
use saffron.Gates.Baseline.Counts.{is_survivor, counter-subtract_baseline}
use saffron.Gates.Witness.{
  Trial, not_restored, not_applied, refused, not_run, tested, declared_mutants, Tally, Outcome,
  stopped, tallied, survivor, judge_tested, judge_trial, witness_verdict, conclude, attempt, go_on,
  run_mutants, no_tally, run_declared, witness_gate,
}

module _ {World : Type 0} (try_mutant : World → Mutant → Text → Trial × World) (edit_noun : Text)
    (collected : Option (List Text)) where
  -- Every failure is a survivor.
  abbrev AllSurvivors : List Failure → Type 0
  AllSurvivors failures = All (λ failure. failure.code ≡ codes "survived-mutant") failures

  AllSurvivors-snoc :
      (failures : List Failure) (failure : Failure)
      → AllSurvivors failures
      → failure.code ≡ codes "survived-mutant"
      → AllSurvivors (failures ++ failure ∷ [])
  AllSurvivors-snoc [] failure h e = (e, tt)
  AllSurvivors-snoc (f ∷ failures) failure h e = (h.0, AllSurvivors-snoc failures failure h.1 e)

  abbrev IsClean : Outcome → Type 0
  IsClean (stopped result) = (result.gate ≡ codes "witness") × (result.failures ≡ [])
  IsClean (tallied tally) = AllSurvivors tally.survived

  judge_tested-IsClean :
      (criterion : Criterion) (mutant : Mutant) (tally : Tally) (result : GateResult)
      (status : Status)
      → AllSurvivors tally.survived
      → IsClean (judge_tested edit_noun criterion mutant tally result status)
  unfolding judge_tested
  judge_tested-IsClean criterion mutant tally result error h = (refl, refl)
  judge_tested-IsClean criterion mutant tally result fail h = h
  judge_tested-IsClean criterion mutant tally result pass h =
      AllSurvivors-snoc tally.survived (survivor edit_noun criterion mutant) h refl
  judge_tested-IsClean criterion mutant tally result skip h = h

  judge_trial-IsClean :
      (criterion : Criterion) (mutant : Mutant) (tally : Tally) (trial : Trial)
      → AllSurvivors tally.survived
      → IsClean (judge_trial edit_noun criterion mutant tally trial)
  unfolding judge_trial
  judge_trial-IsClean criterion mutant tally (not_restored exc none) h = (refl, refl)
  judge_trial-IsClean criterion mutant tally (not_restored exc (some e)) h = (refl, refl)
  judge_trial-IsClean criterion mutant tally (not_applied exc) h = (refl, refl)
  judge_trial-IsClean criterion mutant tally (refused reason) h = h
  judge_trial-IsClean criterion mutant tally (not_run exc) h = (refl, refl)
  judge_trial-IsClean criterion mutant tally (tested result) h =
      judge_tested-IsClean criterion mutant tally result result.status h

  run_mutants-IsClean :
      (declared : List (Criterion × Mutant)) (world : World) (tally : Tally)
      → AllSurvivors tally.survived
      → IsClean (run_mutants try_mutant edit_noun collected declared world tally).0
  unfolding run_mutants
  run_mutants-IsClean [] world tally h = h
  run_mutants-IsClean ((criterion, mutant) ∷ declared) world tally h =
      let (trial, world') = attempt try_mutant edit_noun collected world criterion mutant in
      next world' (judge_trial edit_noun criterion mutant tally trial)
        (judge_trial-IsClean criterion mutant tally trial h)
        (λ tally' j. run_mutants-IsClean declared world' tally' j)
    where
      next :
          (world' : World) (outcome : Outcome)
          → IsClean outcome
          → ((tally' : Tally)
              → AllSurvivors tally'.survived
              → IsClean (run_mutants try_mutant edit_noun collected declared world' tally').0)
          → IsClean
              (go_on try_mutant edit_noun collected outcome world'
                λ tally'. run_mutants try_mutant edit_noun collected declared world' tally').0
      next world' (stopped result) j more = j
      next world' (tallied tally') j more = more tally' j

  abbrev IsUncancelled : GateResult → Type 0
  IsUncancelled result = (result.gate ≡ codes "witness") × AllSurvivors result.failures

  conclude-IsUncancelled :
      (declared : List (Criterion × Mutant)) (outcome : Outcome)
      → IsClean outcome
      → IsUncancelled (conclude edit_noun declared outcome)
  unfolding conclude witness_verdict
  conclude-IsUncancelled declared (stopped result) c = (c.0, rw c.1 tt)
  conclude-IsUncancelled declared (tallied tally) c = verdict tally.survived tally.died c
    where
      verdict :
          (survived : List Failure) (died : List Text)
          → AllSurvivors survived
          → IsUncancelled (witness_verdict edit_noun declared tally survived died)
      verdict (f ∷ survived) died h = (refl, h)
      verdict [] (n ∷ died) h = (refl, tt)
      verdict [] [] h = (refl, tt)

  pub witness_gate-IsUncancelled :
      (acceptance : List Criterion) (world : World)
      → IsUncancelled (witness_gate try_mutant edit_noun collected acceptance world).0
  unfolding witness_gate run_declared
  witness_gate-IsUncancelled acceptance world = declared_lem (declared_mutants acceptance)
    where
      declared_lem :
          (declared : List (Criterion × Mutant))
          → IsUncancelled (run_declared try_mutant edit_noun collected declared world).0
      declared_lem [] = (refl, tt)
      declared_lem (one ∷ declared) =
          conclude-IsUncancelled (one ∷ declared) _ (
            run_mutants-IsClean (one ∷ declared) world (no_tally try_mutant edit_noun collected) tt)

  -- Every failure of the witness gate is a survivor that no baseline takes off a suite: whatever
  -- two suites hold, as many failures of its identity are left as head has.
  pub witness_gate_never_cancelled :
      (acceptance : List Criterion) (world : World) (classes : CharClasses)
      (head base : List GateResult)
      → let result = (witness_gate try_mutant edit_noun collected acceptance world).0 in
        All
          (λ failure.
            counter classes
              (subtract_baseline classes head base)
              (identity classes result.gate failure)
            ≡ counter classes (all_failures head) (identity classes result.gate failure))
          result.failures
  unfolding identity
  witness_gate_never_cancelled acceptance world classes head base =
      let (named, survivors) = witness_gate-IsUncancelled acceptance world in
      let result = (witness_gate try_mutant edit_noun collected acceptance world).0 in
      All-map
        (λ failure e.
          let key = identity classes result.gate failure in
          ground (
            arith,
            counter-subtract_baseline classes head base key,
            survivor_key classes result.gate failure named e,
          ))
        result.failures survivors
    where
      survivor_key :
          (classes : CharClasses) (gate : Text) (failure : Failure)
          → gate ≡ codes "witness"
          → failure.code ≡ codes "survived-mutant"
          → is_survivor (identity classes gate failure) ≡ true
      survivor_key classes gate failure g e =
          ground (
            arith,
            same_iff gate (codes "witness"),
            same_iff failure.code (codes "survived-mutant"),
          )
