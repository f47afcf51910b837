-- ===== src/Gates/Witness/Verdict.antt =====
-- When the `witness` gate passes, fails and stops, by the trials that it makes.
use saffron.Prelude.{
  ◌≡◌, refl, ◌≢◌, ◌↔◌, ◌⊎◌, inl, inr, List, [], ◌∷◌, ◌++◌, Option, none, some, arith, Text, Any,
}
use saffron.Intake.{Criterion, Mutant}
use saffron.Gates.Contract.{Failure, GateResult, Status, pass, fail, skip, error}
use saffron.Gates.Witness.{
  Trial, not_restored, not_applied, refused, not_run, tested, declared_mutants, Tally, Outcome,
  stopped, tallied, survivor, judge_tested, judge_trial, witness_verdict, conclude, attempt, go_on,
  run_mutants, no_tally, run_declared, witness_gate,
}

-- The trial ends the attempt.
abbrev pub Stops : Trial → Type 0
Stops (not_restored exc failed_to_run) = Unit
Stops (not_applied exc) = Unit
Stops (refused reason) = ⊥
Stops (not_run exc) = Unit
Stops (tested result) = result.status ≡ error

-- The one test ran under the mutant, and passed or failed.
abbrev pub Survives : Trial → Type 0
Survives (tested result) = result.status ≡ pass
Survives _ = ⊥

abbrev pub Dies : Trial → Type 0
Dies (tested result) = result.status ≡ fail
Dies _ = ⊥

-- The files that the failures name, for the mutants that survived, in their order.
abbrev Entry : Type 0
Entry = Criterion × Mutant × Trial

abbrev HasStop : List Entry → Type 0
HasStop entries = Any (λ (e : Entry). Stops e.2) entries

abbrev HasSurvivor : List Entry → Type 0
HasSurvivor entries = Any (λ (e : Entry). Survives e.2) entries

abbrev HasDead : List Entry → Type 0
HasDead entries = Any (λ (e : Entry). Dies e.2) entries

-- What a tally says of the trials behind it.
abbrev Adds : Tally → Tally → Type 0 → Type 0 → Type 0
Adds before after Survivor Dead =
    ((after.survived ≢ []) ↔ ((before.survived ≢ []) ⊎ Survivor))
    × ((after.died ≢ []) ↔ ((before.died ≢ []) ⊎ Dead))

snoc-ne-nil : {A : Type 0} (xs : List A) (x : A) → xs ++ x ∷ [] ≢ []
snoc-ne-nil [] x e = ground arith
snoc-ne-nil (y ∷ xs) x e = ground arith

abbrev Judged : Tally → Trial → Outcome → Type 0
Judged tally trial (stopped result) = Stops trial × (result.status ≡ error)
Judged tally trial (tallied tally') =
    (¬ Stops trial) × Adds tally tally' (Survives trial) (Dies trial)

judge_tested-Judged :
    (edit_noun : Text) (criterion : Criterion) (mutant : Mutant) (tally : Tally)
    (result : GateResult) (status : Status)
    → result.status ≡ status
    → Judged tally (tested result) (judge_tested edit_noun criterion mutant tally result status)
unfolding judge_tested
judge_tested-Judged edit_noun criterion mutant tally result error e = (e, refl)
judge_tested-Judged edit_noun criterion mutant tally result fail e =
    ground (arith, snoc-ne-nil tally.died criterion.witness)
judge_tested-Judged edit_noun criterion mutant tally result pass e =
    ground (arith, snoc-ne-nil tally.survived (survivor edit_noun criterion mutant))
judge_tested-Judged edit_noun criterion mutant tally result skip e = ground arith

judge_trial-Judged :
    (edit_noun : Text) (criterion : Criterion) (mutant : Mutant) (tally : Tally) (trial : Trial)
    → Judged tally trial (judge_trial edit_noun criterion mutant tally trial)
unfolding judge_trial
judge_trial-Judged edit_noun criterion mutant tally (not_restored exc none) = (tt, refl)
judge_trial-Judged edit_noun criterion mutant tally (not_restored exc (some e)) = (tt, refl)
judge_trial-Judged edit_noun criterion mutant tally (not_applied exc) = (tt, refl)
judge_trial-Judged edit_noun criterion mutant tally (refused reason) = ground arith
judge_trial-Judged edit_noun criterion mutant tally (not_run exc) = (tt, refl)
judge_trial-Judged edit_noun criterion mutant tally (tested result) =
    judge_tested-Judged edit_noun criterion mutant tally result result.status refl

module _ {World : Type 0} (try_mutant : World → Mutant → Text → Trial × World) (edit_noun : Text)
    (collected : Option (List Text)) where
  -- Every declared mutant's trial in turn, were none of them to end the attempt.
  unfoldable pub trials : List (Criterion × Mutant) → World → List Entry
  trials [] world = []
  trials ((criterion, mutant) ∷ declared) world =
      let (trial, world') = attempt try_mutant edit_noun collected world criterion mutant in
      (criterion, mutant, trial) ∷ trials declared world'

  abbrev Ran : Tally → List Entry → Outcome → Type 0
  Ran tally entries (stopped result) = HasStop entries × (result.status ≡ error)
  Ran tally entries (tallied tally') =
      (¬ HasStop entries) × Adds tally tally' (HasSurvivor entries) (HasDead entries)

  Ran-cons :
      (tally tally' : Tally) (criterion : Criterion) (mutant : Mutant) (trial : Trial)
      (entries : List Entry) (outcome : Outcome)
      → (¬ Stops trial) × Adds tally tally' (Survives trial) (Dies trial)
      → Ran tally' entries outcome
      → Ran tally ((criterion, mutant, trial) ∷ entries) outcome
  Ran-cons tally tally' criterion mutant trial entries (stopped result) h r = (inr r.0, r.1)
  Ran-cons tally tally' criterion mutant trial entries (tallied tally'') h r = ground arith

  run_mutants-Ran :
      (declared : List (Criterion × Mutant)) (world : World) (tally : Tally)
      → Ran tally
          (trials declared world)
          (run_mutants try_mutant edit_noun collected declared world tally).0
  unfolding run_mutants trials
  run_mutants-Ran [] world tally = ground arith
  run_mutants-Ran ((criterion, mutant) ∷ declared) world tally =
      let (trial, world') = attempt try_mutant edit_noun collected world criterion mutant in
      next trial world' (judge_trial edit_noun criterion mutant tally trial)
        (judge_trial-Judged edit_noun criterion mutant tally trial)
        (λ tally'. run_mutants-Ran declared world' tally')
    where
      next :
          (trial : Trial) (world' : World) (outcome : Outcome)
          → Judged tally trial outcome
          → ((tally' : Tally)
              → Ran tally'
                  (trials declared world')
                  (run_mutants try_mutant edit_noun collected declared world' tally').0)
          → Ran tally
              ((criterion, mutant, trial) ∷ trials declared world')
              (go_on try_mutant edit_noun collected outcome world'
                λ tally'. run_mutants try_mutant edit_noun collected declared world' tally').0
      next trial world' (stopped result) j more = (inl j.0, j.1)
      next trial world' (tallied tally') j more =
          Ran-cons tally tally' criterion mutant trial (trials declared world') _ j (more tally')

  -- The status is the one that the trials call for.
  abbrev pub FollowsFrom : List Entry → GateResult → Type 0
  FollowsFrom entries result =
      ((result.status ≡ error) ↔ HasStop entries)
      × ((result.status ≡ fail) ↔ ((¬ HasStop entries) × HasSurvivor entries))
      × ((result.status ≡ pass)
          ↔ ((¬ HasStop entries) × ((¬ HasSurvivor entries) × HasDead entries)))

  witness_verdict_lem :
      (declared : List (Criterion × Mutant)) (tally : Tally) (survived : List Failure)
      (died : List Text)
      → ((witness_verdict edit_noun declared tally survived died).status ≢ error)
        × (((witness_verdict edit_noun declared tally survived died).status ≡ fail)
            ↔ (survived ≢ []))
        × (((witness_verdict edit_noun declared tally survived died).status ≡ pass)
            ↔ ((survived ≡ []) × (died ≢ [])))
  unfolding witness_verdict
  witness_verdict_lem declared tally (f ∷ survived) died = ground arith
  witness_verdict_lem declared tally [] (n ∷ died) = ground arith
  witness_verdict_lem declared tally [] [] = ground arith

  nil-cases : {A : Type 0} (xs : List A) → (xs ≡ []) ⊎ (xs ≢ [])
  nil-cases [] = inl refl
  nil-cases (x ∷ xs) = inr (λ e. ground arith)

  conclude-FollowsFrom :
      (declared : List (Criterion × Mutant)) (entries : List Entry) (outcome : Outcome)
      → Ran (no_tally try_mutant edit_noun collected) entries outcome
      → FollowsFrom entries (conclude edit_noun declared outcome)
  unfolding conclude
  conclude-FollowsFrom declared entries (stopped result) r = ground arith
  conclude-FollowsFrom declared entries (tallied tally) r = ground (
    arith,
    witness_verdict_lem declared tally tally.survived tally.died,
    nil-cases tally.survived,
  )

  run_declared-FollowsFrom :
      (declared : List (Criterion × Mutant)) (world : World)
      → FollowsFrom
          (trials declared world)
          (run_declared try_mutant edit_noun collected declared world).0
  unfolding run_declared trials
  run_declared-FollowsFrom [] world = ground arith
  run_declared-FollowsFrom (one ∷ declared) world =
      conclude-FollowsFrom (one ∷ declared) (trials (one ∷ declared) world) _
        (run_mutants-Ran (one ∷ declared) world (no_tally try_mutant edit_noun collected))

  -- The witness gate by the trials of the declared mutants in turn: it is an error exactly if one
  -- ends the attempt (the mutant could not be applied or undone, or its test could not run), it
  -- fails exactly if none does and one mutant survives, and it passes exactly if none ends the
  -- attempt, none survives and one dies.
  pub witness_gate_follows :
      (acceptance : List Criterion) (world : World)
      → FollowsFrom
          (trials (declared_mutants acceptance) world)
          (witness_gate try_mutant edit_noun collected acceptance world).0
  unfolding witness_gate
  witness_gate_follows acceptance world =
      run_declared-FollowsFrom (declared_mutants acceptance) world
